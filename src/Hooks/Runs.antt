-- ===== src/Hooks/Runs.antt =====
-- What each service keeps of its deliveries (the database, the files, the history of digests), and
-- the runs of its loop in which the skeleton and this move together.
use habr_parser.Base.{◌≡◌, ◌≢◌, refl, ℕ, List, map}
use habr_parser.Double.{Double}
use habr_parser.Json.{Json}
use habr_parser.Messages.{DigestReadyMessage}
use habr_parser.Parser.Page.{Dom}
use habr_parser.Notifier.{Files}
use habr_parser.Notifier
use habr_parser.Web
use habr_parser.Storage.Service as StorageService
use habr_parser.Storage.Engine.{Sqlite}
use habr_parser.Config.{AmqpConfig}
use habr_parser.Amqp.{Service}
use habr_parser.Amqp.Run.{Run, received}
use habr_parser.Amqp.Settled.{SettleLaws, tags, Run-settled}
use habr_parser.Hooks.Services.{Kind, Setup, Input, hooks_of}
use habr_parser.Hooks.Settled.{
  parser_hooks-SettleLaws, storage_hooks-SettleLaws, notifier_hooks-SettleLaws,
  web_hooks-SettleLaws,
}

module _ {F : Type 0} (fl : Double F) (j : Json F) (dom : Dom) (db : Sqlite F)
    (setup : Setup F) where
  abbrev pub Kept : Kind → Type 0
  Kept Kind.fetching = Unit
  Kept Kind.parsing = Unit
  Kept Kind.storing = db.Conn
  Kept Kind.notifying = Files
  Kept Kind.showing = List (DigestReadyMessage F)

  -- A step reads what is kept.
  abbrev pub given : (k : Kind) → Input F db.Conn → Kept k → Input F db.Conn
  given Kind.fetching i a = i
  given Kind.parsing i a = i
  given Kind.storing i c = record i { conn = c }
  given Kind.notifying i files = record i { files = files }
  given Kind.showing i digests = record i { digests = digests }

  -- What a delivery leaves.
  abbrev pub keep : (k : Kind) → Input F db.Conn → Kept k → Kept k
  keep Kind.fetching i a = a
  keep Kind.parsing i a = a
  keep Kind.storing i c =
      (StorageService.handle_parsed_articles j db i.reading.now_iso i.reading.now_epoch
        i.reading.payload c).0
  keep Kind.notifying i files =
      (Notifier.handle_digest_ready fl j setup.notifier i.first i.second i.reading.payload files).0
  keep Kind.showing i digests = (Web.handle_digest_ready fl j setup.web i.reading.payload digests).0

  -- The runs of a service from its start with `first` on.
  abbrev pub RunOf : (k : Kind) → AmqpConfig → Kept k → Service → Kept k → Type 0
  RunOf k config first = Run (hooks_of fl j dom db setup k) (given k) (keep k) config first

  abbrev pub deliveries :
      (k : Kind) (config : AmqpConfig) (first : Kept k) {s : Service} {a : Kept k}
      → RunOf k config first s a
      → List (Input F db.Conn)
  deliveries k config first r =
      received (hooks_of fl j dom db setup k) (given k) (keep k) config first r

  abbrev pub tag_of : Input F db.Conn → ℕ
  tag_of i = i.reading.tag

  hooks_of-SettleLaws :
      (k : Kind)
      → k ≢ Kind.fetching
      → (i : Input F db.Conn) (a : Kept k)
      → SettleLaws (tag_of i) (hooks_of fl j dom db setup k (given k i a))
  hooks_of-SettleLaws Kind.fetching ne i a = absurd (ne refl)
  hooks_of-SettleLaws Kind.parsing ne i a = parser_hooks-SettleLaws fl j dom setup.parser i.reading
  hooks_of-SettleLaws Kind.storing ne i c = storage_hooks-SettleLaws j db setup.storage c i.reading
  hooks_of-SettleLaws Kind.notifying ne i files =
      notifier_hooks-SettleLaws fl j setup.notifier i.first i.second files i.reading
  hooks_of-SettleLaws Kind.showing ne i digests =
      web_hooks-SettleLaws fl j setup.web digests i.reading

  -- In every run of one of the four services that consume, over any events in any order, the
  -- deliveries that the service acknowledged or rejected are those that it got, each once and in
  -- order.
  pub services-Settled :
      (k : Kind)
      → k ≢ Kind.fetching
      → (config : AmqpConfig) (first : Kept k) {s : Service} {a : Kept k}
        (r : RunOf k config first s a)
      → tags s.sent ≡ map tag_of (deliveries k config first r)
  services-Settled k ne config first r =
      Run-settled (hooks_of fl j dom db setup k) (given k) (keep k) config first tag_of
        (hooks_of-SettleLaws k ne) r
