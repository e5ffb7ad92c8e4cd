-- ===== src/Parser/Trim/Loops/Front.antt =====
-- The loop that moves `begin` stops before what `skip_blanks` leaves.
use habr_parser.Base.{
  ℕ, zero, suc, ◌+◌, ◌-◌, ◌<◌, ◌≡◌, refl, sym, ap, ◌∙◌, [], ◌∷◌, ◌++◌, append_assoc, false, ◌&&◌,
  arith, Bytes, Option, some, ◌==◌, length, length-append,
}
use habr_parser.Env.{is_space}
use habr_parser.Parser.Trim.{skip_blanks}
use habr_parser.Parser.Trim.Loops.{
  begin_loop, at_index, ge→ltb, nbsp_near, nbsp_far, begin_round, both_rounds,
}

-- Where the loop at the front stands: `pre` is behind it, `s` before it.
pub record Front (value pre s : Bytes) (i : ℕ) : Type 0 where
  pub whole : value ≡ pre ++ s
  pub index : i ≡ length pre

Front-step :
    (value pre s : Bytes) (c i : ℕ)
    → Front value pre (c ∷ s) i
    → Front value (pre ++ c ∷ []) s (i + 1)
Front-step value pre s c i p = record {
  whole = p.whole ∙ sym (append_assoc pre (c ∷ []) s);
  index = omega (arith, p.index, length-append pre (c ∷ []));
}

pub Front-length : (value pre s : Bytes) (i : ℕ) → Front value pre s i → length value ≡ i + length s
Front-length value pre s i p = ap length p.whole ∙ omega (arith, length-append pre s, p.index)

abbrev pub FrontEnds : Bytes → Option ℕ → Bytes → Type 0
FrontEnds value o s = (pre : Bytes) × (i : ℕ) × (o ≡ some i) × Front value pre s i

-- The loop stops before what `skip_blanks` leaves.
pub begin_loop_ends :
    (fuel : ℕ) (value pre s : Bytes) (i : ℕ)
    → length s < fuel
    → Front value pre s i
    → FrontEnds value (begin_loop fuel value i (length value)) (skip_blanks 0xc2 0xa0 s)
unfolding skip_blanks
begin_loop_ends zero value pre s i h p = absurd (omega arith)
begin_loop_ends (suc fuel) value pre [] i h p =
    let e = Front-length value pre [] i p in
    (pre, i, unfold begin_loop in rw (ge→ltb i (length value) (omega (arith, e))) refl, p)
begin_loop_ends (suc fuel) value pre (c ∷ []) i h p =
    let e = Front-length value pre (c ∷ []) i p in
    let q = Front-step value pre [] c i p in
    let r =
      begin_round fuel value i (length value) (is_space c) false (omega (arith, e))
        (ap is_space (at_index value pre [] c i p.whole p.index))
        (nbsp_far (length value - i) _ _ (omega (arith, e))) in
    rw r (
      both_rounds (FrontEnds value) (is_space c) false
        (begin_loop_ends fuel value _ [] (i + 1) (omega arith) q) (pre, i, refl, p)
        (pre, i, refl, p))
begin_loop_ends (suc fuel) value pre (c ∷ d ∷ s) i h p =
    let e = Front-length value pre (c ∷ d ∷ s) i p in
    let q = Front-step value pre (d ∷ s) c i p in
    let q' = Front-step value (pre ++ c ∷ []) s d (i + 1) q in
    let at_c = at_index value pre (d ∷ s) c i p.whole p.index in
    let at_d = at_index value (pre ++ c ∷ []) s d (i + 1) q.whole q.index in
    let r =
      begin_round fuel value i (length value) (is_space c) ((c == 0xc2) && (d == 0xa0))
        (omega (arith, e)) (ap is_space at_c)
        (rw (at_c, at_d) (nbsp_near (length value - i) c d (omega (arith, e)))) in
    rw r (
      both_rounds (FrontEnds value) (is_space c) ((c == 0xc2) && (d == 0xa0))
        (begin_loop_ends fuel value _ (d ∷ s) (i + 1) (omega arith) q)
        (begin_loop_ends fuel value _ s (i + 2) (omega arith) (two_steps i q')) (pre, i, refl, p))
  where
    two_steps :
        (i : ℕ)
        → Front value ((pre ++ c ∷ []) ++ d ∷ []) s (i + 1 + 1)
        → Front value ((pre ++ c ∷ []) ++ d ∷ []) s (i + 2)
    two_steps i q = record { whole = q.whole; index = omega (arith, q.index) }
