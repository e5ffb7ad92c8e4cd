-- ===== src/Storage/Tests.antt =====
-- The storage on a database in memory.
use habr_parser.Base.{
  refl, ℕ, ℤ, pos, List, [], ◌∷◌, ◌++◌, true, none, some, arith, ◌≡◌, utf8, ◌≤◌, ◌⊎◌, length, All,
  bytes_eq→ne, Option,
}
use mathlib.Core.List.{cons-ne-nil}
use mathlib.Core.List.{Perm}
use mathlib.Core.List.Perm
use habr_parser.Double.Whole.{whole, whole-Ordered}
use habr_parser.Json.Frames.{frames_json, frames-JsonLaws, every-Finite}
use habr_parser.Messages.{DigestArticle}
use habr_parser.Codec.Finite.{FiniteScore}
use habr_parser.Codec.{digest_to_json, digest_article_to_json}
use habr_parser.Amqp.{Service, publish_to_exchange}
use habr_parser.Samples.{parsed, parsed_text, row, weights, storage_config, online}
use habr_parser.Storage.Table.{
  Row, upsert_all, before, since, select_top, order_by, insert, score, bytes_lt,
}
use habr_parser.Storage.Table.Keys.{UniqueKeys}
use habr_parser.Storage.Table.Best.{Better, IsSorted, InWindow, select_top_lem}
use habr_parser.Storage.Table.Commute.{select_top_perm}
use habr_parser.Storage.Engine.{View}
use habr_parser.Storage.Engine.Memory.{memory, memory-SqliteLaws}
use habr_parser.Storage.Store.{upsert_batch, top_articles, digest_article, decode_hubs, cutoff_of}
use habr_parser.Storage.Store.Atomic.{Stored, upsert_batch-Atomic, upsert_batch_wedged}
use habr_parser.Storage.Service.{handle_parsed_articles, digest_message, publish_digest}
use habr_parser.Storage.Service.Delivery as Delivery
use habr_parser.Storage.Service.Delivery.{handle_parsed_articles-Outcome}
use habr_parser.Storage.Service.Publish.{ranked, Sent, publish_digest-Sent}

abbrev two_rows : List Row
two_rows = row (utf8 "1") 7 ∷ row (utf8 "2") 8 ∷ []

abbrev closed : View
closed = record { rows = two_rows; draft = none }

abbrev opened : View
opened = record { rows = two_rows; draft = some [] }

two_rows-UniqueKeys : UniqueKeys two_rows
unfolding utf8
two_rows-UniqueKeys = ((bytes_eq→ne _ _ refl, tt), (tt, tt))

two_rows_swapped : Perm two_rows (row (utf8 "2") 8 ∷ row (utf8 "1") 7 ∷ [])
two_rows_swapped = Perm.swap _ _ _

select_top_perm_example :
    select_top whole weights (pos 8) 1 (upsert_all two_rows two_rows)
    ≡ select_top whole weights (pos 8) 1 (
        upsert_all
          (row (utf8 "2") 8 ∷ row (utf8 "1") 7 ∷ [])
          (row (utf8 "2") 8 ∷ row (utf8 "1") 7 ∷ []))
select_top_perm_example =
    select_top_perm whole weights whole-Ordered (pos 8) 1 two_rows _ two_rows _ two_rows_swapped
      two_rows-UniqueKeys two_rows_swapped two_rows-UniqueKeys

select_top_lem_example :
    let top = select_top whole weights (pos 8) 1 two_rows in
    (rest : List Row) × (old : List Row) × Perm ((top ++ rest) ++ old) two_rows
    × All (InWindow (pos 8)) (top ++ rest)
    × All (λ r. ¬ InWindow (pos 8) r) old
    × (length top ≤ 1)
    × ((length top ≡ 1) ⊎ (rest ≡ []))
    × IsSorted whole weights top
    × All (λ x. All (λ y. ¬ Better whole weights y x) rest) top
select_top_lem_example = select_top_lem whole weights whole-Ordered (pos 8) 1 two_rows

abbrev batch : View → View × Option ℕ
batch c = upsert_batch frames_json memory (utf8 "now") (pos 9) (utf8 "abcd") parsed.articles c

upsert_batch-Atomic_example :
    (((batch closed).1 ≡ none) × ((batch closed).0.rows ≡ two_rows))
    ⊎ (((batch closed).1 ≡ some 2)
        × Stored frames_json memory
            (utf8 "now")
            (pos 9)
            (utf8 "abcd")
            parsed.articles
            closed
            (batch closed).0)
upsert_batch-Atomic_example =
    upsert_batch-Atomic whole frames_json memory memory-SqliteLaws (utf8 "now") (pos 9)
      (utf8 "abcd") parsed.articles closed (cons-ne-nil _ _)

upsert_batch_wedged_example : ((batch opened).1 ≡ none) × ((batch opened).0 ≡ opened)
upsert_batch_wedged_example =
    upsert_batch_wedged whole frames_json memory memory-SqliteLaws (utf8 "now") (pos 9)
      (utf8 "abcd") parsed.articles opened [] (cons-ne-nil _ _) refl

handle_parsed_articles-Outcome_example :
    let r = handle_parsed_articles frames_json memory (utf8 "now") (pos 9) parsed_text closed in
    Delivery.Outcome frames_json memory (utf8 "now") (pos 9) parsed_text closed r.0 r.1
handle_parsed_articles-Outcome_example =
    handle_parsed_articles-Outcome whole frames_json memory memory-SqliteLaws (utf8 "now") (pos 9)
      parsed_text closed

abbrev ticked : View → Service → Option Service
ticked c s =
    publish_digest frames_json memory storage_config true (utf8 "now") (pos 100) (utf8 "ef01") c s

abbrev or_online : Option Service → Service
or_online none = online
or_online (some s) = s

ticks : ticked closed online ≡ some (or_online (ticked closed online))
unfolding publish_digest top_articles digest_message digest_article decode_hubs cutoff_of select_top
    since order_by insert before score bytes_lt digest_to_json digest_article_to_json
    publish_to_exchange utf8
ticks = refl

every_score : (xs : List (DigestArticle ℤ)) → All (FiniteScore frames_json frames-JsonLaws) xs
every_score [] = tt
every_score (x ∷ xs) = (every-Finite _, every_score xs)

publish_digest-Sent_example :
    Sent whole frames_json memory storage_config
      (utf8 "now")
      (pos 100)
      (utf8 "ef01")
      closed
      (ranked whole frames_json memory storage_config (utf8 "now") (pos 100) (utf8 "ef01") closed)
      online
      (or_online (ticked closed online))
publish_digest-Sent_example =
    publish_digest-Sent whole frames_json frames-JsonLaws memory memory-SqliteLaws storage_config
      (omega arith) true (utf8 "now") (pos 100) (utf8 "ef01") closed online (every_score _) ticks
