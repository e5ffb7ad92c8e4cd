-- ===== src/Storage/Table/Commute.antt =====
-- Upserts of different keys commute, up to the order of the rows, which the digest query does not
-- see.
use habr_parser.Base.{
  ◌≡◌, ◌≢◌, refl, sym, ℕ, ℤ, List, [], ◌∷◌, true, false, bytes_eq, bytes_eq_iff, ne→bytes_eq, ap,
  ◌∙◌, take, Bool, if◌then◌else◌,
}
use mathlib.Core.List.{Permᴰ, Perm}
use mathlib.Core.List.Permᴰ
use mathlib.Core.Logic.{∥∥₁_elim}
use mathlib.Core.Path.{subst}
use habr_parser.Double.{Double, Ordered}
use habr_parser.Config.{ScoreWeights}
use habr_parser.Storage.Table.{Row, update_row, upsert, upsert_all, select_top}
use habr_parser.Storage.Table.Keys.{UniqueKeys, upsert-UniqueKeys, upsert_all-UniqueKeys}
use habr_parser.Storage.Table.Order.{UniqueKeys-perm, order_by_perm, since-UniqueKeys, since-perm}

if_perm :
    (t : Bool) {xs ys zs ws : List Row}
    → Permᴰ xs zs
    → Permᴰ ys ws
    → Permᴰ (if t then xs else ys) (if t then zs else ws)
if_perm true d d' = d
if_perm false d d' = d'

upsert-swap :
    (r a b : Row) (l : List Row)
    → b.article_id ≢ a.article_id
    → Permᴰ (upsert r (a ∷ b ∷ l)) (upsert r (b ∷ a ∷ l))
unfolding upsert
upsert-swap r a b l ne =
    by_tests (bytes_eq a.article_id r.article_id) (bytes_eq b.article_id r.article_id) (λ p q. ne (
      (bytes_eq_iff b.article_id r.article_id).0 q
      ∙ sym ((bytes_eq_iff a.article_id r.article_id).0 p)))
  where
    by_tests :
        (t u : Bool)
        → (t ≡ true → u ≢ true)
        → Permᴰ
            (if t
              then update_row a r ∷ b ∷ l
              else a ∷ (if u then update_row b r ∷ l else b ∷ upsert r l))
            (if u
              then update_row b r ∷ a ∷ l
              else b ∷ (if t then update_row a r ∷ l else a ∷ upsert r l))
    by_tests true true apart = absurd (apart refl refl)
    by_tests true false apart = Permᴰ.swap refl refl
    by_tests false true apart = Permᴰ.swap refl refl
    by_tests false false apart = Permᴰ.swap refl refl

upsert_comm_step :
    (a b x : Row) (rows : List Row) (t u : Bool)
    → bytes_eq x.article_id a.article_id ≡ t
    → bytes_eq x.article_id b.article_id ≡ u
    → a.article_id ≢ b.article_id
    → Permᴰ (upsert a (upsert b rows)) (upsert b (upsert a rows))
    → Permᴰ (upsert a (upsert b (x ∷ rows))) (upsert b (upsert a (x ∷ rows)))
unfolding upsert update_row
upsert_comm_step a b x rows true true p q ne d = absurd (
    ne (
      sym ((bytes_eq_iff x.article_id a.article_id).0 p)
      ∙ (bytes_eq_iff x.article_id b.article_id).0 q))
upsert_comm_step a b x rows true false p q ne d = rw (p, q) (rw p (Permᴰ.refl _))
upsert_comm_step a b x rows false true p q ne d = rw (p, q) (rw p (Permᴰ.refl _))
upsert_comm_step a b x rows false false p q ne d = rw (p, q) (rw p (Permᴰ.cons refl d))

-- Upserts of different keys commute.
upsert_comm :
    (a b : Row) (rows : List Row)
    → a.article_id ≢ b.article_id
    → Permᴰ (upsert a (upsert b rows)) (upsert b (upsert a rows))
unfolding upsert
upsert_comm a b [] ne =
    rw
      (
        ne→bytes_eq b.article_id a.article_id (λ q. ne (sym q)),
        ne→bytes_eq a.article_id b.article_id ne,
      )
      (Permᴰ.swap refl refl)
upsert_comm a b (x ∷ rows) ne =
    upsert_comm_step a b x rows _ _ refl refl ne (upsert_comm a b rows ne)

upsert-Permᴰ :
    (r : Row) {xs ys : List Row} → Permᴰ xs ys → UniqueKeys xs → Permᴰ (upsert r xs) (upsert r ys)
unfolding upsert
upsert-Permᴰ r Permᴰ.nil h = Permᴰ.refl _
upsert-Permᴰ r (Permᴰ.cons {a} {l₁} {l₂} e d) (hx, h) =
    subst (λ x. Permᴰ (upsert r (a ∷ l₁)) (upsert r (x ∷ l₂))) e
      (if_perm (bytes_eq a.article_id r.article_id) (Permᴰ.cons refl d)
        (Permᴰ.cons refl (upsert-Permᴰ r d h)))
upsert-Permᴰ r (Permᴰ.swap {a} {b} {a'} {b'} {l} e f) ((ne, hx), h) =
    subst (λ x. Permᴰ (upsert r (a ∷ b ∷ l)) (upsert r (a' ∷ x ∷ l))) e
      (subst (λ x. Permᴰ (upsert r (a ∷ b ∷ l)) (upsert r (x ∷ a ∷ l))) f (upsert-swap r a b l ne))
upsert-Permᴰ r (Permᴰ.trans d d') h =
    Permᴰ.trans (upsert-Permᴰ r d h) (upsert-Permᴰ r d' (UniqueKeys-perm d h))

upsert_all-Permᴰ :
    (rs : List Row) {xs ys : List Row}
    → Permᴰ xs ys
    → UniqueKeys xs
    → Permᴰ (upsert_all rs xs) (upsert_all rs ys)
upsert_all-Permᴰ [] d h = d
upsert_all-Permᴰ (r ∷ rs) d h = upsert_all-Permᴰ rs (upsert-Permᴰ r d h) (upsert-UniqueKeys r _ h)

upsert_all-perm :
    {rs rs' : List Row} (rows : List Row)
    → Permᴰ rs rs'
    → UniqueKeys rs
    → UniqueKeys rows
    → Permᴰ (upsert_all rs rows) (upsert_all rs' rows)
upsert_all-perm rows Permᴰ.nil hr h = Permᴰ.refl _
upsert_all-perm rows (Permᴰ.cons {a} {l₁} {l₂} e d) (hx, hr) h =
    subst (λ x. Permᴰ (upsert_all l₁ (upsert a rows)) (upsert_all l₂ (upsert x rows))) e
      (upsert_all-perm (upsert a rows) d hr (upsert-UniqueKeys a rows h))
upsert_all-perm rows (Permᴰ.swap {a} {b} {a'} {b'} {l} e f) ((ne, hx), hr) h =
    let from = upsert_all l (upsert b (upsert a rows)) in
    subst (λ x. Permᴰ from (upsert_all l (upsert x (upsert a' rows)))) e
      (subst (λ x. Permᴰ from (upsert_all l (upsert a (upsert x rows)))) f
        (upsert_all-Permᴰ l (upsert_comm b a rows ne)
          (upsert-UniqueKeys b _ (upsert-UniqueKeys a rows h))))
upsert_all-perm rows (Permᴰ.trans d d') hr h =
    Permᴰ.trans (upsert_all-perm rows d hr h) (upsert_all-perm rows d' (UniqueKeys-perm d hr) h)

module _ {F : Type 0} (fl : Double F) (weights : ScoreWeights F) (ordered : Ordered fl) where
  -- The digest depends neither on the order in which the rows of the table lie nor on the order in
  -- which the articles of a batch are stored, where no key is in the table twice or in the batch
  -- twice.
  pub select_top_perm :
      (cutoff : ℤ) (limit : ℕ) (rs rs' rows rows' : List Row)
      → Perm rs rs'
      → UniqueKeys rs
      → Perm rows rows'
      → UniqueKeys rows
      → select_top fl weights cutoff limit (upsert_all rs rows)
        ≡ select_top fl weights cutoff limit (upsert_all rs' rows')
  unfolding select_top
  select_top_perm cutoff limit rs rs' rows rows' pr hr p h = ∥∥₁_elim p (hlevel) (λ d.
      ∥∥₁_elim pr (hlevel) (λ dr.
        let all = Permᴰ.trans (upsert_all-perm rows dr hr h) (upsert_all-Permᴰ rs' d h) in
        ap (take limit) (
          order_by_perm fl weights ordered (since-perm fl weights ordered cutoff all)
            (since-UniqueKeys fl weights ordered cutoff _ (upsert_all-UniqueKeys rs rows h)))))
