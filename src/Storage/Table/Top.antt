-- ===== src/Storage/Table/Top.antt =====
-- The digest query: the best rows of the window, in order.
use habr_parser.Base.{
  ℕ, zero, suc, ◌⊎◌, inl, inr, ◌≤◌, ◌≡◌, refl, sym, List, [], ◌∷◌, ◌++◌, true, false, arith, Bytes,
  ℤ, length, length-take, take, drop, take-append-drop, All, All-split, if_split,
}
use mathlib.Core.List.{Perm}
use mathlib.Core.List.Perm
use mathlib.Core.Path.{subst}
use habr_parser.Double.{Double, Ordered}
use habr_parser.Config.{ScoreWeights}
use habr_parser.Storage.Table.{Row, bytes_lt, score, before, insert, order_by, since, select_top}

bytes_lt_asym : (a b : Bytes) → bytes_lt a b ≡ true → bytes_lt b a ≡ false
unfolding bytes_lt
bytes_lt_asym [] [] h = cc
bytes_lt_asym [] (y ∷ ys) h = refl
bytes_lt_asym (x ∷ xs) [] h = cc
bytes_lt_asym (x ∷ xs) (y ∷ ys) h = ground (arith, bytes_lt_asym xs ys)

bytes_lt_neg_trans :
    (a b c : Bytes) → bytes_lt a b ≡ false → bytes_lt b c ≡ false → bytes_lt a c ≡ false
unfolding bytes_lt
bytes_lt_neg_trans [] [] c h k = k
bytes_lt_neg_trans [] (y ∷ ys) c h k = cc
bytes_lt_neg_trans (x ∷ xs) b [] h k = refl
bytes_lt_neg_trans (x ∷ xs) [] (z ∷ zs) h k = cc
bytes_lt_neg_trans (x ∷ xs) (y ∷ ys) (z ∷ zs) h k = ground (arith, bytes_lt_neg_trans xs ys zs)

-- What is taken is as many as were asked for, or all.
take_full : (n : ℕ) (xs : List Row) → (length (take n xs) ≡ n) ⊎ (drop n xs ≡ [])
take_full zero xs = inl refl
take_full (suc n) [] = inr refl
take_full (suc n) (x ∷ xs) = elim (take_full n xs) [ inl e ↦ inl (omega arith) | inr e ↦ inr e ]

module _ {F : Type 0} (fl : Double F) (weights : ScoreWeights F) (ordered : Ordered fl) where
  open ordered use {asym, neg_trans}

  pub before_asym : (a b : Row) → before fl weights a b ≡ true → before fl weights b a ≡ false
  unfolding before
  before_asym a b h = ground (
    arith,
    asym (score fl weights a) (score fl weights b),
    asym (score fl weights b) (score fl weights a),
    bytes_lt_asym a.article_id b.article_id,
  )

  pub before_neg_trans :
      (a b c : Row)
      → before fl weights a b ≡ false
      → before fl weights b c ≡ false
      → before fl weights a c ≡ false
  unfolding before
  before_neg_trans a b c h k =
      let sa = score fl weights a in
      let sb = score fl weights b in
      let sc = score fl weights c in
      ground (
        arith,
        neg_trans sc sb sa,
        neg_trans sa sb sc,
        neg_trans sb sa sc,
        neg_trans sa sc sb,
        asym sa sb,
        asym sb sc,
        asym sa sc,
        asym sc sa,
        bytes_lt_neg_trans a.article_id b.article_id c.article_id,
      )

  -- No later row comes before an earlier one.
  abbrev pub Sorted : List Row → Type 0
  Sorted [] = Unit
  Sorted (r ∷ rows) = All (λ s. before fl weights s r ≡ false) rows × Sorted rows

  insert-All :
      (P : Row → Type 0) (r : Row) (xs : List Row) → P r → All P xs → All P (insert fl weights r xs)
  unfolding insert
  insert-All P r [] pr h = (pr, tt)
  insert-All P r (x ∷ xs) pr (px, h) =
      if_split (All P) (before fl weights x r) (λ _. (px, insert-All P r xs pr h))
        (λ _. (pr, (px, h)))

  All-not_before :
      (x r : Row) (xs : List Row)
      → before fl weights x r ≡ false
      → All (λ s. before fl weights s x ≡ false) xs
      → All (λ s. before fl weights s r ≡ false) xs
  All-not_before x r [] e h = tt
  All-not_before x r (s ∷ xs) e (hs, h) = (before_neg_trans s x r hs e, All-not_before x r xs e h)

  insert-Sorted : (r : Row) (xs : List Row) → Sorted xs → Sorted (insert fl weights r xs)
  unfolding insert
  insert-Sorted r [] h = (tt, tt)
  insert-Sorted r (x ∷ xs) (hx, h) =
      if_split Sorted (before fl weights x r)
        (λ e. (insert-All _ r xs (before_asym x r e) hx, insert-Sorted r xs h))
        (λ e. ((e, All-not_before x r xs e hx), (hx, h)))

  order_by-Sorted : (rows : List Row) → Sorted (order_by fl weights rows)
  unfolding order_by
  order_by-Sorted [] = tt
  order_by-Sorted (r ∷ rows) = insert-Sorted r _ (order_by-Sorted rows)

  insert-perm : (r : Row) (xs : List Row) → Perm (insert fl weights r xs) (r ∷ xs)
  unfolding insert
  insert-perm r [] = Perm.refl _
  insert-perm r (x ∷ xs) =
      if_split (λ l. Perm l (r ∷ x ∷ xs)) (before fl weights x r)
        (λ _. Perm.trans (Perm.cons x (insert-perm r xs)) (Perm.swap r x xs)) (λ _. Perm.refl _)

  order_by-perm : (rows : List Row) → Perm (order_by fl weights rows) rows
  unfolding order_by
  order_by-perm [] = Perm.refl _
  order_by-perm (r ∷ rows) = Perm.trans (insert-perm r _) (Perm.cons r (order_by-perm rows))

  Sorted-append :
      (xs ys : List Row)
      → Sorted (xs ++ ys)
      → Sorted xs × All (λ x. All (λ y. before fl weights y x ≡ false) ys) xs
  Sorted-append [] ys h = (tt, tt)
  Sorted-append (x ∷ xs) ys (hx, h) =
      let (hxs, hys) = All-split (λ s. before fl weights s x ≡ false) xs ys hx in
      let (sorted, best) = Sorted-append xs ys h in ((hxs, sorted), (hys, best))

  order_by-All :
      (P : Row → Type 0) (rows : List Row) → All P rows → All P (order_by fl weights rows)
  unfolding order_by
  order_by-All P [] h = tt
  order_by-All P (r ∷ rows) (p, h) = insert-All P r _ p (order_by-All P rows h)

  -- Of the rows of the window the query takes the first, or all, in the order of `before`.
  pub select_top-Sorted :
      (cutoff : ℤ) (limit : ℕ) (rows : List Row)
      → let top = select_top fl weights cutoff limit rows in
        (rest : List Row) × (length top ≤ limit)
        × ((length top ≡ limit) ⊎ (rest ≡ []))
        × Sorted top
        × Perm (top ++ rest) (since fl weights cutoff rows)
        × ((P : Row → Type 0) → All P (since fl weights cutoff rows) → All P (top ++ rest))
        × All (λ x. All (λ y. before fl weights y x ≡ false) rest) top
  unfolding select_top
  select_top-Sorted cutoff limit rows =
      let all = order_by fl weights (since fl weights cutoff rows) in
      let whole = take-append-drop limit all in
      let (sorted, best) =
        Sorted-append (take limit all) (drop limit all)
          (subst Sorted (sym whole) (order_by-Sorted _)) in
      (
        drop limit all,
        omega (arith, length-take limit all),
        take_full limit all,
        sorted,
        subst (λ l. Perm l (since fl weights cutoff rows)) (sym whole) (order_by-perm _),
        λ P h. subst (All P) (sym whole) (order_by-All P _ h),
        best,
      )
