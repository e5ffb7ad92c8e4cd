-- ===== src/Storage/Run.antt =====
-- What the table keeps over any run of the storage.
use habr_parser.Base.{◌≡◌, refl, ap, sym, ◌∙◌, List, [], ◌∷◌, ◌++◌, ℤ, Option, Bytes}
use mathlib.Core.Path.{subst}
use habr_parser.Double.{Double}
use habr_parser.Json.{Json}
use habr_parser.Parser.Page.{Dom}
use habr_parser.Config.{AmqpConfig}
use habr_parser.Amqp.{Service, Ack}
use habr_parser.Amqp.Run.{Run-keep_all, keep_all}
use habr_parser.Hooks.Services.{Kind, Setup, Input, hooks_of}
use habr_parser.Hooks.Runs.{RunOf, keep, deliveries}
use habr_parser.Storage.Table.{Row, upsert, upsert_all}
use habr_parser.Storage.Table.Keys.{
  find, SeenLike, UniqueKeys, upsert_all-UniqueKeys, upsert_all-SeenLike,
}
use habr_parser.Storage.Engine.{Sqlite, SqliteLaws}
use habr_parser.Storage.Service.Delivery.{
  Outcome, malformed, saved, empty, failed, uncounted, handle_parsed_articles-Outcome,
}

-- The second table is the first after some upserts.
abbrev pub Grown : List Row → List Row → Type 0
Grown before after = (rs : List Row) × (after ≡ upsert_all rs before)

upsert_all-append :
    (rs rs' rows : List Row) → upsert_all (rs ++ rs') rows ≡ upsert_all rs' (upsert_all rs rows)
upsert_all-append [] rs' rows = refl
upsert_all-append (r ∷ rs) rs' rows = upsert_all-append rs rs' (upsert r rows)

Grown-trans : {a b c : List Row} → Grown a b → Grown b c → Grown a c
Grown-trans {a} (rs, e) (rs', e') =
    (rs ++ rs', e' ∙ ap (upsert_all rs') e ∙ sym (upsert_all-append rs rs' a))

module _ {F : Type 0} (fl : Double F) (j : Json F) (dom : Dom) (db : Sqlite F)
    (laws : SqliteLaws fl db) (setup : Setup F) where
  Outcome-Grown :
      (now_iso : Bytes) (now_epoch : ℤ) (payload : Bytes) (c c' : db.Conn) (o : Option Ack)
      → Outcome j db now_iso now_epoch payload c c' o
      → Grown (db.view c).rows (db.view c').rows
  Outcome-Grown now_iso now_epoch payload c c' _ (malformed _ e) =
      ([], ap (λ d. (db.view d).rows) e)
  Outcome-Grown now_iso now_epoch payload c c' _ (saved m _ _ (rs, _, e, _)) = (rs, e)
  Outcome-Grown now_iso now_epoch payload c c' _ (empty m _ _ e) =
      ([], ap (λ d. (db.view d).rows) e)
  Outcome-Grown now_iso now_epoch payload c c' _ (failed m _ e) = ([], e)
  Outcome-Grown now_iso now_epoch payload c c' _ (uncounted _ h) =
      Outcome-Grown now_iso now_epoch payload c c' _ h

  keep_all-Grown :
      (is : List (Input F db.Conn)) (c : db.Conn)
      → Grown (db.view c).rows (db.view (keep_all (keep fl j dom db setup Kind.storing) is c)).rows
  keep_all-Grown [] c = ([], refl)
  keep_all-Grown (i ∷ is) c =
      Grown-trans
        (Outcome-Grown i.reading.now_iso i.reading.now_epoch i.reading.payload c _ _ (
          handle_parsed_articles-Outcome fl j db laws i.reading.now_iso i.reading.now_epoch
            i.reading.payload c))
        (keep_all-Grown is _)

  -- On a database that meets the laws, in every run of the storage, over any events in any order: a
  -- table without a key twice stays so, and no row of it is lost or gets another time of its first
  -- sighting, whatever is delivered and whatever fails.
  pub storage_run :
      (config : AmqpConfig) (first : db.Conn) {s : Service} {c : db.Conn}
      → RunOf fl j dom db setup Kind.storing config first s c
      → (UniqueKeys (db.view first).rows → UniqueKeys (db.view c).rows)
        × ((key : Bytes) (old : Row)
            → SeenLike old (find key (db.view first).rows)
            → SeenLike old (find key (db.view c).rows))
  storage_run config first {c = c} r =
      let kept = Run-keep_all (hooks_of fl j dom db setup Kind.storing) _ _ config first r in
      let (rs, grown) =
        keep_all-Grown (deliveries fl j dom db setup Kind.storing config first r) first in
      let e = ap (λ d. (db.view d).rows) kept ∙ grown in
      (
        λ h. subst UniqueKeys (sym e) (upsert_all-UniqueKeys rs _ h),
        λ key old seen.
            subst (λ rows. SeenLike old (find key rows)) (sym e)
              (upsert_all-SeenLike key old rs _ seen),
      )
