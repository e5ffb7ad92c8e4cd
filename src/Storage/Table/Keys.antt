-- ===== src/Storage/Table/Keys.antt =====
-- The primary key, and what an upsert changes.
use habr_parser.Base.{
  ◌≡◌, ◌≢◌, refl, sym, List, [], ◌∷◌, Option, none, some, arith, Bytes, bytes_eq, bytes_eq_iff,
  bytes_eq_refl, All, if◌then◌else◌, if_split,
}
use mathlib.Core.Path.{subst}
use habr_parser.Storage.Table.{Row, update_row, upsert, upsert_all}

-- The row of a key.
unfoldable pub find : Bytes → List Row → Option Row
find key [] = none
find key (r ∷ rows) = if bytes_eq r.article_id key then some r else find key rows

-- No two rows have one key.
abbrev pub UniqueKeys : List Row → Type 0
UniqueKeys [] = Unit
UniqueKeys (r ∷ rows) = All (λ s. s.article_id ≢ r.article_id) rows × UniqueKeys rows

-- What the upsert leaves at its key.
abbrev pub merged : Row → Option Row → Row
merged row none = row
merged row (some old) = update_row old row

-- After an upsert the key has the new values, with the first sighting of the old row if there was
-- one, and every other key has what it had.
pub find-upsert :
    (key : Bytes) (row : Row) (rows : List Row)
    → find key (upsert row rows) ≡ (
        if bytes_eq row.article_id key
        then some (merged row (find row.article_id rows))
        else find key rows)
unfolding find upsert
find-upsert key row [] = refl
find-upsert key row (r ∷ rows) = ground (
  arith,
  bytes_eq_iff r.article_id row.article_id,
  bytes_eq_iff r.article_id key,
  bytes_eq_iff row.article_id key,
  find-upsert key row rows,
)

upsert-All-ne :
    (key : Bytes) (row : Row) (rows : List Row)
    → row.article_id ≢ key
    → All (λ s. s.article_id ≢ key) rows
    → All (λ s. s.article_id ≢ key) (upsert row rows)
unfolding upsert
upsert-All-ne key row [] ne h = (ne, tt)
upsert-All-ne key row (r ∷ rows) ne (hr, h) =
    if_split (All (λ s. s.article_id ≢ key)) (bytes_eq r.article_id row.article_id) (λ _. (hr, h))
      (λ _. (hr, upsert-All-ne key row rows ne h))

-- The key stays unique.
pub upsert-UniqueKeys :
    (row : Row) (rows : List Row) → UniqueKeys rows → UniqueKeys (upsert row rows)
unfolding upsert
upsert-UniqueKeys row [] h = (tt, tt)
upsert-UniqueKeys row (r ∷ rows) (hr, h) =
    if_split UniqueKeys (bytes_eq r.article_id row.article_id) (λ _. (hr, h))
      (λ e. (
        upsert-All-ne r.article_id row rows (λ q. cc (e, bytes_eq_refl r.article_id, q)) hr,
        upsert-UniqueKeys row rows h,
      ))

-- In a table with no key twice there is none after any upserts.
pub upsert_all-UniqueKeys : (rs rows : List Row) → UniqueKeys rows → UniqueKeys (upsert_all rs rows)
upsert_all-UniqueKeys [] rows h = h
upsert_all-UniqueKeys (r ∷ rs) rows h =
    upsert_all-UniqueKeys rs (upsert r rows) (upsert-UniqueKeys r rows h)

-- A row of the key that was first seen when `old` was.
abbrev pub SeenLike : Row → Option Row → Type 0
SeenLike old none = ⊥
SeenLike old (some new) =
    (new.first_seen_epoch ≡ old.first_seen_epoch) × (new.first_seen_at ≡ old.first_seen_at)

upsert-SeenLike :
    (key : Bytes) (old row : Row) (rows : List Row)
    → SeenLike old (find key rows)
    → SeenLike old (find key (upsert row rows))
unfolding update_row
upsert-SeenLike key old row rows seen = rw (find-upsert key row rows) (
    if_split (SeenLike old) (bytes_eq row.article_id key)
      (λ e. merged_seen (find row.article_id rows) (
        subst (λ k. SeenLike old (find k rows)) (sym ((bytes_eq_iff row.article_id key).0 e)) seen))
      (λ _. seen))
  where
    merged_seen : (o : Option Row) → SeenLike old o → SeenLike old (some (merged row o))
    merged_seen none h = absurd h
    merged_seen (some r) h = h

-- However often an article is stored again, its row stays, with the time of its first sighting.
pub upsert_all-SeenLike :
    (key : Bytes) (old : Row) (rs rows : List Row)
    → SeenLike old (find key rows)
    → SeenLike old (find key (upsert_all rs rows))
upsert_all-SeenLike key old [] rows h = h
upsert_all-SeenLike key old (r ∷ rs) rows h =
    upsert_all-SeenLike key old rs (upsert r rows) (upsert-SeenLike key old r rows h)
