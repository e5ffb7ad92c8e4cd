-- ===== src/Parser/Trim/Loops/Back.antt =====
-- The loop that moves `end` likewise, and what both give.
use mathlib.Core.Path.{subst}
use mathlib.Core.List.{reverse-cons, reverse-reverse}
use habr_parser.Base.{
  ℕ, zero, suc, ◌+◌, ◌-◌, ◌<◌, ◌≡◌, refl, sym, ap, ◌∙◌, [], ◌∷◌, ◌++◌, append_assoc, append-nil,
  reverse, false, ◌&&◌, arith, Bytes, Option, some, ◌==◌, length, length-append, length-reverse,
  take, drop,
}
use habr_parser.Env.{is_space}
use habr_parser.Parser.Trim.{skip_blanks, trim}
use habr_parser.Parser.Trim.Loops.{
  at, end_loop, trim_loops, at_index, ge→ltb, nbsp_near, nbsp_far, end_round, both_rounds,
}
use habr_parser.Parser.Trim.Loops.Front.{Front-length, begin_loop_ends}

-- Where the loop at the back stands: between `begin` and `end` are the bytes of `s`, backwards.
record Back (value pre s post : Bytes) (begin end : ℕ) : Type 0 where
  whole : value ≡ pre ++ (reverse s ++ post)
  low : begin ≡ length pre
  high : end ≡ begin + length s

Back-step :
    (value pre s post : Bytes) (c begin end : ℕ)
    → Back value pre (c ∷ s) post begin end
    → Back value pre s (c ∷ post) begin (end - 1)
Back-step value pre s post c begin end p = record {
  whole =
      p.whole
      ∙ ap (◌++◌ pre)
          (ap (λ t. t ++ post) (reverse-cons c s) ∙ append_assoc (reverse s) (c ∷ []) post);
  low = p.low;
  high = omega (arith, p.high);
}

Back-at :
    (value pre s post : Bytes) (c begin end : ℕ)
    → Back value pre (c ∷ s) post begin end
    → at value (end - 1) ≡ c
Back-at value pre s post c begin end p =
    let q = Back-step value pre s post c begin end p in
    at_index value (pre ++ reverse s) post c (end - 1)
      (q.whole ∙ sym (append_assoc pre (reverse s) (c ∷ post)))
      (omega (arith, p.low, p.high, length-append pre (reverse s), length-reverse s))

abbrev BackEnds : Bytes → Bytes → ℕ → Option ℕ → Bytes → Type 0
BackEnds value pre begin o s =
    (post : Bytes) × (end : ℕ) × (o ≡ some end) × Back value pre s post begin end

nbsp_swap : (c d : ℕ) → ((d == 0xc2) && (c == 0xa0)) ≡ ((c == 0xa0) && (d == 0xc2))
nbsp_swap c d = ground arith

-- The loop stops behind what `skip_blanks` leaves of the bytes read backwards.
end_loop_ends :
    (fuel : ℕ) (value pre s post : Bytes) (begin end : ℕ)
    → length s < fuel
    → Back value pre s post begin end
    → BackEnds value pre begin (end_loop fuel value begin end) (skip_blanks 0xa0 0xc2 s)
unfolding skip_blanks
end_loop_ends zero value pre s post begin end h p = absurd (omega arith)
end_loop_ends (suc fuel) value pre [] post begin end h p =
    (post, end, unfold end_loop in rw (ge→ltb begin end (omega (arith, p.high))) refl, p)
end_loop_ends (suc fuel) value pre (c ∷ []) post begin end h p =
    let q = Back-step value pre [] post c begin end p in
    let r =
      end_round fuel value begin end (is_space c) false (omega (arith, p.high))
        (ap is_space (Back-at value pre [] post c begin end p))
        (nbsp_far (end - begin) _ _ (omega (arith, p.high))) in
    rw r (
      both_rounds (BackEnds value pre begin) (is_space c) false
        (end_loop_ends fuel value pre [] (c ∷ post) begin (end - 1) (omega arith) q)
        (post, end, refl, p) (post, end, refl, p))
end_loop_ends (suc fuel) value pre (c ∷ d ∷ s) post begin end h p =
    let q = Back-step value pre (d ∷ s) post c begin end p in
    let q' = Back-step value pre s (c ∷ post) d begin (end - 1) q in
    let at_c = Back-at value pre (d ∷ s) post c begin end p in
    let at_d = two_back (Back-at value pre s (c ∷ post) d begin (end - 1) q) in
    let r =
      end_round fuel value begin end (is_space c) ((c == 0xa0) && (d == 0xc2))
        (omega (arith, p.high)) (ap is_space at_c)
        (rw (at_c, at_d) (nbsp_near (end - begin) d c (omega (arith, p.high)) ∙ nbsp_swap c d)) in
    rw r (
      both_rounds (BackEnds value pre begin) (is_space c) ((c == 0xa0) && (d == 0xc2))
        (end_loop_ends fuel value pre (d ∷ s) (c ∷ post) begin (end - 1) (omega arith) q)
        (end_loop_ends fuel value pre s (d ∷ c ∷ post) begin (end - 2) (omega arith)
          (subst (Back value pre s (d ∷ c ∷ post) begin) minus_two q'))
        (post, end, refl, p))
  where
    minus_two : end - 1 - 1 ≡ end - 2
    minus_two = omega arith

    two_back : at value (end - 1 - 1) ≡ d → at value (end - 2) ≡ d
    two_back e = ap (at value) (sym minus_two) ∙ e

drop_prefix : (pre s : Bytes) → drop (length pre) (pre ++ s) ≡ s
drop_prefix [] s = refl
drop_prefix (c ∷ pre) s = drop_prefix pre s

take_prefix : (s post : Bytes) → take (length s) (s ++ post) ≡ s
take_prefix [] post = refl
take_prefix (c ∷ s) post = ap (◌∷◌ c) (take_prefix s post)

cut-Back :
    (value pre s post : Bytes) (begin end : ℕ)
    → Back value pre s post begin end
    → take (end - begin) (drop begin value) ≡ reverse s
cut-Back value pre s post begin end p =
    let n : end - begin ≡ length (reverse s) = omega (arith, p.high, length-reverse s) in
    rw (n, p.whole, p.low, drop_prefix pre (reverse s ++ post)) (take_prefix (reverse s) post)

-- The loops of `Trim` end, within a round for each byte and one more, and give what `trim` gives.
pub trim_loops-trim : (value : Bytes) → trim_loops value ≡ some (trim value)
unfolding trim_loops trim
trim_loops-trim value =
    let front = skip_blanks 0xc2 0xa0 value in
    let (pre, begin, e, p) =
      begin_loop_ends (suc (length value)) value [] value 0 (omega arith)
        (record { whole = refl; index = refl }) in
    let n = Front-length value pre front begin p in
    let start : Back value pre (reverse front) [] begin (length value) = record {
      whole = p.whole ∙ ap (◌++◌ pre) (sym (append-nil _ ∙ reverse-reverse front));
      low = p.index;
      high = omega (arith, n, length-reverse front);
    } in
    let (post, end, e', q) =
      end_loop_ends (suc (length value)) value pre (reverse front) [] begin (length value)
        (omega (arith, n, length-reverse front)) start in
    rw (e, e') (ap some (cut-Back value pre _ post begin end q))
