-- ===== src/Storage/Table/Order.antt =====
-- The table as the set that SQL sees: the digest query does not see the order of the rows.
use habr_parser.Base.{
  ◌≡◌, ◌≢◌, refl, sym, ℤ, List, [], ◌∷◌, true, false, arith, Bytes, All, if_split, ◌∙◌, ltb_ℤ, Bool,
  if◌then◌else◌,
}
use mathlib.Core.List.{Permᴰ}
use mathlib.Core.List.Permᴰ
use mathlib.Core.Path.{subst}
use habr_parser.Double.{Double, Ordered}
use habr_parser.Config.{ScoreWeights}
use habr_parser.Storage.Table.{Row, bytes_lt, score, before, insert, order_by, since}
use habr_parser.Storage.Table.Top.{before_asym, before_neg_trans}
use habr_parser.Storage.Table.Keys.{UniqueKeys}

bytes_lt_total : (a b : Bytes) → a ≢ b → bytes_lt a b ≡ false → bytes_lt b a ≡ true
unfolding bytes_lt
bytes_lt_total [] [] ne h = absurd (ne refl)
bytes_lt_total [] (y ∷ ys) ne h = cc
bytes_lt_total (x ∷ xs) [] ne h = refl
bytes_lt_total (x ∷ xs) (y ∷ ys) ne h = ground (arith, bytes_lt_total xs ys)

Row-set : IsSet Row
Row-set = hlevel

All-perm : (P : Row → Type 0) {xs ys : List Row} → Permᴰ xs ys → All P xs → All P ys
All-perm P Permᴰ.nil h = h
All-perm P (Permᴰ.cons e d) (p, h) = (subst P e p, All-perm P d h)
All-perm P (Permᴰ.swap e f) (p, (q, h)) = (subst P f q, (subst P e p, h))
All-perm P (Permᴰ.trans d d') h = All-perm P d' (All-perm P d h)

pub UniqueKeys-perm : {xs ys : List Row} → Permᴰ xs ys → UniqueKeys xs → UniqueKeys ys
UniqueKeys-perm Permᴰ.nil h = h
UniqueKeys-perm (Permᴰ.cons {l₁} e d) (hx, h) = (
  All-perm _ d (subst (λ r. All (λ s. s.article_id ≢ r.article_id) l₁) e hx),
  UniqueKeys-perm d h,
)
UniqueKeys-perm (Permᴰ.swap {l} e f) ((ne, hx), (hy, h)) = (
  (λ q. ne (cc (q, e, f)), subst (λ r. All (λ s. s.article_id ≢ r.article_id) l) f hy),
  (subst (λ r. All (λ s. s.article_id ≢ r.article_id) l) e hx, h),
)
UniqueKeys-perm (Permᴰ.trans d d') h = UniqueKeys-perm d' (UniqueKeys-perm d h)

module _ {F : Type 0} (fl : Double F) (weights : ScoreWeights F) (ordered : Ordered fl) where
  open ordered use {asym, neg_trans}

  -- Rows with different keys are never level.
  before_total :
      (a b : Row)
      → a.article_id ≢ b.article_id
      → before fl weights a b ≡ false
      → before fl weights b a ≡ true
  unfolding before
  before_total a b ne h = ground (
    arith,
    bytes_lt_total a.article_id b.article_id ne,
    asym (score fl weights a) (score fl weights b),
  )

  insert_comm :
      (a b : Row) (xs : List Row)
      → a.article_id ≢ b.article_id
      → insert fl weights a (insert fl weights b xs) ≡ insert fl weights b (insert fl weights a xs)
  unfolding insert
  insert_comm a b [] ne = ground (arith, before_total a b ne, before_asym fl weights ordered a b)
  insert_comm a b (x ∷ xs) ne = ground (
    arith,
    before_total a b ne,
    before_asym fl weights ordered a b,
    before_asym fl weights ordered b a,
    before_neg_trans fl weights ordered x a b,
    before_neg_trans fl weights ordered x b a,
    before_neg_trans fl weights ordered b x a,
    before_neg_trans fl weights ordered a x b,
    insert_comm a b xs ne,
  )

  pub order_by_perm :
      {xs ys : List Row}
      → Permᴰ xs ys
      → UniqueKeys xs
      → order_by fl weights xs ≡ order_by fl weights ys
  unfolding order_by
  order_by_perm Permᴰ.nil h = refl
  order_by_perm (Permᴰ.cons e d) (hx, h) = cc (order_by_perm d h, e)
  order_by_perm (Permᴰ.swap {a} {b} {l} e f) ((ne, hx), h) =
      cc (insert_comm a b (order_by fl weights l) (λ q. ne (sym q)), e, f)
  order_by_perm (Permᴰ.trans d d') h = order_by_perm d h ∙ order_by_perm d' (UniqueKeys-perm d h)

  since-All :
      (P : Row → Type 0) (cutoff : ℤ) (xs : List Row)
      → All P xs
      → All P (since fl weights cutoff xs)
  unfolding since
  since-All P cutoff [] h = h
  since-All P cutoff (x ∷ xs) (px, h) =
      if_split (All P) (ltb_ℤ x.first_seen_epoch cutoff) (λ _. since-All P cutoff xs h)
        (λ _. (px, since-All P cutoff xs h))

  pub since-UniqueKeys :
      (cutoff : ℤ) (xs : List Row) → UniqueKeys xs → UniqueKeys (since fl weights cutoff xs)
  unfolding since
  since-UniqueKeys cutoff [] h = h
  since-UniqueKeys cutoff (x ∷ xs) (hx, h) =
      if_split UniqueKeys (ltb_ℤ x.first_seen_epoch cutoff) (λ _. since-UniqueKeys cutoff xs h)
        (λ _. (since-All _ cutoff xs hx, since-UniqueKeys cutoff xs h))

  pub since-perm :
      (cutoff : ℤ) {xs ys : List Row}
      → Permᴰ xs ys
      → Permᴰ (since fl weights cutoff xs) (since fl weights cutoff ys)
  unfolding since
  since-perm cutoff Permᴰ.nil = Permᴰ.nil
  since-perm cutoff (Permᴰ.cons {a} {l₁} {l₂} e d) =
      subst (λ b. Permᴰ (since fl weights cutoff (a ∷ l₁)) (since fl weights cutoff (b ∷ l₂))) e
        (if_cons (ltb_ℤ a.first_seen_epoch cutoff) a (since-perm cutoff d))
    where
      if_cons :
          (t : Bool) (a : Row) {xs ys : List Row}
          → Permᴰ xs ys
          → Permᴰ (if t then xs else a ∷ xs) (if t then ys else a ∷ ys)
      if_cons true a d = d
      if_cons false a d = Permᴰ.cons refl d
  since-perm cutoff (Permᴰ.swap {a} {b} {a'} {b'} {l} e f) =
      let from = since fl weights cutoff (a ∷ b ∷ l) in
      subst (λ x. Permᴰ from (since fl weights cutoff (a' ∷ x ∷ l))) e
        (subst (λ x. Permᴰ from (since fl weights cutoff (x ∷ a ∷ l))) f
          (if_swap (ltb_ℤ a.first_seen_epoch cutoff) (ltb_ℤ b.first_seen_epoch cutoff) a b _))
    where
      if_swap :
          (t u : Bool) (a b : Row) (xs : List Row)
          → Permᴰ
              (if t then (if u then xs else b ∷ xs) else a ∷ (if u then xs else b ∷ xs))
              (if u then (if t then xs else a ∷ xs) else b ∷ (if t then xs else a ∷ xs))
      if_swap true true a b xs = Permᴰ.refl _
      if_swap true false a b xs = Permᴰ.refl _
      if_swap false true a b xs = Permᴰ.refl _
      if_swap false false a b xs = Permᴰ.swap refl refl
  since-perm cutoff (Permᴰ.trans d d') = Permᴰ.trans (since-perm cutoff d) (since-perm cutoff d')
