-- ===== src/Storage/Table/Best.antt =====
-- What kTopSql of services/storage/src/article_store.cpp asks for, read off its clauses: the score as
-- a sum of products, the window, the order by score, votes and key, and the limit.
use habr_parser.Base.{
  ℕ, ◌+◌, ◌≤◌, ◌<◌, ◌≡◌, ◌⊎◌, refl, List, [], ◌∷◌, ◌++◌, true, false, arith, Bytes, ℤ, pos_part,
  neg_part, ltb_ℤ, length, All, All-map, if_split,
}
use mathlib.Core.List.{Perm, perm_middle}
use mathlib.Core.List.Perm
use habr_parser.Double.{Double, Ordered}
use habr_parser.Config.{ScoreWeights}
use habr_parser.Storage.Table.{Row, bytes_lt, score, before, since, select_top}
use habr_parser.Storage.Table.Top.{Sorted, select_top-Sorted}

-- The order of two texts by their first different byte, an end of a text before every byte.
pub data Precedes : Bytes → Bytes → Type 0 where
  ends : {y : ℕ} {ys : Bytes} → Precedes [] (y ∷ ys)
  differs : {x y : ℕ} {xs ys : Bytes} → x < y → Precedes (x ∷ xs) (y ∷ ys)
  agrees : {x : ℕ} {xs ys : Bytes} → Precedes xs ys → Precedes (x ∷ xs) (x ∷ ys)

-- One integer is below another, each as the difference of two natural numbers.
abbrev pub Below : ℤ → ℤ → Type 0
Below a b = pos_part a + neg_part b < pos_part b + neg_part a

-- Seen first at the cutoff or later.
abbrev pub InWindow : ℤ → Row → Type 0
InWindow cutoff r = ¬ Below r.first_seen_epoch cutoff

module _ {F : Type 0} (fl : Double F) where
  -- The products of counts and weights, summed up from the left.
  abbrev sum_products : F → List (ℤ × F) → F
  sum_products sum [] = sum
  sum_products sum ((count, weight) ∷ rest) =
      sum_products (fl.add sum (fl.mul (fl.of_ℤ count) weight)) rest

  module _ (weights : ScoreWeights F) where
    abbrev pub weighted : Row → F
    weighted r = sum_products (fl.mul (fl.of_ℤ r.votes) weights.votes) (
        (r.bookmarks, weights.bookmarks)
        ∷ (r.comments, weights.comments)
        ∷ (r.views, weights.views)
        ∷ [])

    -- Neither score is above the other.
    abbrev pub Level : Row → Row → Type 0
    Level a b =
        (fl.lt (weighted a) (weighted b) ≡ false) × (fl.lt (weighted b) (weighted a) ≡ false)

    -- One row shall stand before another: by a higher score; on a level by more votes; and with as
    -- many votes by the smaller key.
    pub data Better (a b : Row) : Type 0 where
      by_score : fl.lt (weighted b) (weighted a) ≡ true → Better a b
      by_votes : Level a b → Below b.votes a.votes → Better a b
      by_key : Level a b → a.votes ≡ b.votes → Precedes a.article_id b.article_id → Better a b

    -- No later row is better than an earlier one.
    abbrev pub IsSorted : List Row → Type 0
    IsSorted [] = Unit
    IsSorted (r ∷ rows) = All (λ s. ¬ Better s r) rows × IsSorted rows

bytes_lt-Precedes : {a b : Bytes} → Precedes a b → bytes_lt a b ≡ true
unfolding bytes_lt
bytes_lt-Precedes ends = refl
bytes_lt-Precedes (differs h) = ground arith
bytes_lt-Precedes (agrees p) = ground (arith, bytes_lt-Precedes p)

since-cut :
    {F : Type 0} (fl : Double F) (weights : ScoreWeights F) (cutoff : ℤ) (rows : List Row)
    → (old : List Row) × Perm (since fl weights cutoff rows ++ old) rows
      × All (InWindow cutoff) (since fl weights cutoff rows)
      × All (λ r. ¬ InWindow cutoff r) old
unfolding since
since-cut fl weights cutoff [] = ([], Perm.refl [], tt, tt)
since-cut fl weights cutoff (r ∷ rows) =
    let (old, parts, young, aged) = since-cut fl weights cutoff rows in
    if_split
      (λ kept.
        (old : List Row) × Perm (kept ++ old) (r ∷ rows)
        × All (InWindow cutoff) kept
        × All (λ r. ¬ InWindow cutoff r) old)
      (ltb_ℤ r.first_seen_epoch cutoff)
      (λ e. (
        r ∷ old,
        Perm.trans (perm_middle _ old) (Perm.cons r parts),
        young,
        (λ fresh. fresh (ground arith), aged),
      ))
      (λ e. (old, Perm.cons r parts, (λ below. ground arith, young), aged))

module _ {F : Type 0} (fl : Double F) (weights : ScoreWeights F) (ordered : Ordered fl) where
  before-Better : {a b : Row} → Better fl weights a b → before fl weights a b ≡ true
  unfolding before score
  before-Better (by_score h) = ground arith
  before-Better (by_votes l h) = ground arith
  before-Better (by_key l e p) = ground (arith, bytes_lt-Precedes p)

  not_Better : {a b : Row} → before fl weights a b ≡ false → ¬ Better fl weights a b
  not_Better e p = cc (e, before-Better p)

  Sorted-IsSorted : (rows : List Row) → Sorted fl weights ordered rows → IsSorted fl weights rows
  Sorted-IsSorted [] h = tt
  Sorted-IsSorted (r ∷ rows) (first, h) =
      (All-map (λ s e. not_Better e) rows first, Sorted-IsSorted rows h)

  -- For an order of the scores that is a total preorder, the rows of a table are those that the digest
  -- query returns, a rest and the old ones. The old
  -- ones alone are not in the window; the query returns at most `limit` rows, fewer only if there is
  -- no rest; it returns them in the order of their scores, then of their votes, then of their keys;
  -- and no row of the rest is better than one that it returns.
  pub select_top_lem :
      (cutoff : ℤ) (limit : ℕ) (rows : List Row)
      → let top = select_top fl weights cutoff limit rows in
        (rest : List Row) × (old : List Row) × Perm ((top ++ rest) ++ old) rows
        × All (InWindow cutoff) (top ++ rest)
        × All (λ r. ¬ InWindow cutoff r) old
        × (length top ≤ limit)
        × ((length top ≡ limit) ⊎ (rest ≡ []))
        × IsSorted fl weights top
        × All (λ x. All (λ y. ¬ Better fl weights y x) rest) top
  select_top_lem cutoff limit rows =
      let (rest, len, full, sorted, parts, keeps, best) =
        select_top-Sorted fl weights ordered cutoff limit rows in
      let (old, cut, young, aged) = since-cut fl weights cutoff rows in
      (
        rest,
        old,
        Perm.trans (Perm.append_right old parts) cut,
        keeps (InWindow cutoff) young,
        aged,
        len,
        full,
        Sorted-IsSorted _ sorted,
        All-map (λ x bests. All-map (λ y e. not_Better e) rest bests) _ best,
      )
