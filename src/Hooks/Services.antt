-- ===== src/Hooks/Services.antt =====
-- The five services of services/*/src/main.cpp as one family, and what holds of each in every state
-- that its event loop can reach.
use habr_parser.Base.{List}
use habr_parser.Double.{Double}
use habr_parser.Json.{Json}
use habr_parser.Messages.{DigestReadyMessage}
use habr_parser.Parser.Page.{Dom}
use habr_parser.Notifier.{Disk, Files}
use habr_parser.Config.{
  AmqpConfig, FetcherConfig, ParserConfig, StorageConfig, NotifierConfig, WebConfig,
}
use habr_parser.Amqp.{Service, Frame, Hooks}
use habr_parser.Amqp.Step.{Reach}
use habr_parser.Amqp.Invariant.{HookLaws, Inv, Reach-Inv}
use habr_parser.Amqp.Topology.{Declares, Told, Reach-Told}
use habr_parser.Storage.Engine.{Sqlite}
use habr_parser.Fetcher.{Curl}
use habr_parser.Hooks.{
  Reading, fetcher_hooks, storage_hooks, parser_hooks, notifier_hooks, web_hooks,
}
use habr_parser.Hooks.Laws.{
  fetcher_hooks-HookLaws, storage_hooks-HookLaws, parser_hooks-HookLaws, notifier_hooks-HookLaws,
  web_hooks-HookLaws,
}
use habr_parser.Hooks.Topology.{
  fetcher_needs, storage_needs, parser_needs, notifier_needs, web_needs, fetcher_hooks-Declares,
  storage_hooks-Declares, parser_hooks-Declares, notifier_hooks-Declares, web_hooks-Declares,
}

pub data Kind : Type 0 where
  fetching parsing storing notifying showing : Kind

pub record Setup (F : Type 0) : Type 0 where
  pub fetcher : FetcherConfig
  pub parser : ParserConfig
  pub storage : StorageConfig F
  pub notifier : NotifierConfig
  pub web : WebConfig

-- What an event may read besides the state of the service. The digests and the files are what the web
-- service and the notifier keep of the deliveries before.
pub record Input (F : Type 0) (Conn : Type 0) : Type 0 where
  pub curl : Curl
  pub conn : Conn
  pub first : Disk
  pub second : Disk
  pub files : Files
  pub digests : List (DigestReadyMessage F)
  pub reading : Reading

-- The queues and exchanges that a service uses.
abbrev pub needs_of : Kind → List Frame
needs_of Kind.fetching = fetcher_needs
needs_of Kind.parsing = parser_needs
needs_of Kind.storing = storage_needs
needs_of Kind.notifying = notifier_needs
needs_of Kind.showing = web_needs

module _ {F : Type 0} (fl : Double F) (j : Json F) (dom : Dom) (db : Sqlite F)
    (setup : Setup F) where
  abbrev pub hooks_of : Kind → Input F db.Conn → Hooks
  hooks_of Kind.fetching i = fetcher_hooks j setup.fetcher i.curl i.reading
  hooks_of Kind.parsing i = parser_hooks fl j dom setup.parser i.reading
  hooks_of Kind.storing i = storage_hooks j db setup.storage i.conn i.reading
  hooks_of Kind.notifying i = notifier_hooks fl j setup.notifier i.first i.second i.files i.reading
  hooks_of Kind.showing i = web_hooks fl j setup.web i.digests i.reading

  pub hooks_of-HookLaws : (k : Kind) (i : Input F db.Conn) → HookLaws (hooks_of k i)
  hooks_of-HookLaws Kind.fetching i = fetcher_hooks-HookLaws j setup.fetcher i.curl i.reading
  hooks_of-HookLaws Kind.parsing i = parser_hooks-HookLaws fl j dom setup.parser i.reading
  hooks_of-HookLaws Kind.storing i = storage_hooks-HookLaws j db setup.storage i.conn i.reading
  hooks_of-HookLaws Kind.notifying i =
      notifier_hooks-HookLaws fl j setup.notifier i.first i.second i.files i.reading
  hooks_of-HookLaws Kind.showing i = web_hooks-HookLaws fl j setup.web i.digests i.reading

  hooks_of-Declares : (k : Kind) (i : Input F db.Conn) → Declares (needs_of k) (hooks_of k i)
  hooks_of-Declares Kind.fetching i = fetcher_hooks-Declares j setup.fetcher i.curl i.reading
  hooks_of-Declares Kind.parsing i = parser_hooks-Declares fl j dom setup.parser i.reading
  hooks_of-Declares Kind.storing i = storage_hooks-Declares j db setup.storage i.conn i.reading
  hooks_of-Declares Kind.notifying i =
      notifier_hooks-Declares fl j setup.notifier i.first i.second i.files i.reading
  hooks_of-Declares Kind.showing i = web_hooks-Declares fl j setup.web i.digests i.reading

  -- In every state of each of the five services that a start and any events of the loop in any order
  -- lead to: at most one reconnect is pending, and exactly when one is scheduled; the timer runs only
  -- on a ready channel; the attempts stay within the limit and the exit code is 0 until the service
  -- shuts down; and a service that shuts down has asked its loop to exit, or has the forced exit
  -- pending.
  pub services-Inv :
      (k : Kind) (config : AmqpConfig) {s : Service} → Reach (hooks_of k) config s → Inv s
  services-Inv k config r = Reach-Inv (hooks_of k) (hooks_of-HookLaws k) config r

  -- In every state of each of the five services that a start and any events of the loop in any order
  -- lead to, each frame that the service has sent names only queues and exchanges that it declared
  -- before, and while the channel is ready all that the service uses is declared.
  pub services-Told :
      (k : Kind) (config : AmqpConfig) {s : Service}
      → Reach (hooks_of k) config s
      → Told (needs_of k) s
  services-Told k config r =
      Reach-Told (needs_of k) (hooks_of k) (hooks_of-HookLaws k) (hooks_of-Declares k) config r
