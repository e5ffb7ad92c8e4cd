-- ===== src/Parser/Trim/Loops.antt =====
-- The loops of `Trim` as they stand in services/parser/src/html_parser.cpp, over two indices.
pub mod Front
pub mod Back
use mathlib.Core.Path.{subst}
use mathlib.Core.List.{reverse-cons, reverse-reverse}
use habr_parser.Base.{
  Bool, ℕ, zero, suc, ◌+◌, ◌-◌, ◌≤◌, ◌<◌, ◌≡◌, refl, sym, ap, ◌∙◌, [], ◌∷◌, ◌++◌, append_assoc,
  append-nil, reverse, true, false, ◌&&◌, arith, Bytes, Option, none, some, ◌==◌, if◌then◌else◌,
  ltb, leb, length, length-append, take, drop,
}
use habr_parser.Env.{is_space}
use habr_parser.Parser.Trim.{skip_blanks, trim}

-- `value[i]`
abbrev pub at : Bytes → ℕ → ℕ
at [] i = 0
at (c ∷ s) zero = c
at (c ∷ s) (suc i) = at s i

-- The loop that moves `begin`: the index at its end, or `none` if the fuel runs out.
pub begin_loop : ℕ → Bytes → ℕ → ℕ → Option ℕ
begin_loop zero value begin end = none
begin_loop (suc fuel) value begin end =
    let after_space = begin_loop fuel value (begin + 1) end in
    let after_nbsp = begin_loop fuel value (begin + 2) end in
    if ltb begin end
    then (if is_space (at value begin)
        then after_space
        else if leb 2 (end - begin) && (at value begin == 0xc2) && (at value (begin + 1) == 0xa0)
        then after_nbsp
        else some begin)
    else some begin

-- The loop that moves `end`.
pub end_loop : ℕ → Bytes → ℕ → ℕ → Option ℕ
end_loop zero value begin end = none
end_loop (suc fuel) value begin end =
    let after_space = end_loop fuel value begin (end - 1) in
    let after_nbsp = end_loop fuel value begin (end - 2) in
    if ltb begin end
    then (if is_space (at value (end - 1))
        then after_space
        else if leb 2 (end - begin) && (at value (end - 2) == 0xc2) && (at value (end - 1) == 0xa0)
        then after_nbsp
        else some end)
    else some end

abbrev cut : Bytes → ℕ → Option ℕ → Option Bytes
cut value begin none = none
cut value begin (some end) = some (take (end - begin) (drop begin value))

abbrev from_end : Bytes → Option ℕ → Option Bytes
from_end value none = none
from_end value (some begin) =
    cut value begin (end_loop (suc (length value)) value begin (length value))

-- `Trim`, with a round of fuel for each byte and one more.
pub trim_loops : Bytes → Option Bytes
trim_loops value = from_end value (begin_loop (suc (length value)) value 0 (length value))

at-append : (pre : Bytes) (c : ℕ) (s : Bytes) → at (pre ++ c ∷ s) (length pre) ≡ c
at-append [] c s = refl
at-append (d ∷ pre) c s = at-append pre c s

pub at_index :
    (value pre s : Bytes) (c i : ℕ) → value ≡ pre ++ c ∷ s → i ≡ length pre → at value i ≡ c
at_index value pre s c i e h = rw (e, h) (at-append pre c s)

lt→ltb : (a b : ℕ) → a < b → ltb a b ≡ true
lt→ltb a b h = ground arith

pub ge→ltb : (a b : ℕ) → b ≤ a → ltb a b ≡ false
ge→ltb a b h = ground arith

-- What a round does where an index is left: `t` and `u` are its two tests.
abbrev pub round : Bool → Bool → Option ℕ → Option ℕ → Option ℕ → Option ℕ
round t u after_space after_nbsp stays = if t then after_space else if u then after_nbsp else stays

abbrev pub nbsp_test : ℕ → ℕ → ℕ → Bool
nbsp_test left c d = leb 2 left && (c == 0xc2) && (d == 0xa0)

pub nbsp_near : (left c d : ℕ) → 2 ≤ left → nbsp_test left c d ≡ ((c == 0xc2) && (d == 0xa0))
nbsp_near left c d h = ground arith

pub nbsp_far : (left c d : ℕ) → left ≤ 1 → nbsp_test left c d ≡ false
nbsp_far left c d h = ground arith

pub begin_round :
    (fuel : ℕ) (value : Bytes) (i end : ℕ) (t u : Bool)
    → i < end
    → is_space (at value i) ≡ t
    → nbsp_test (end - i) (at value i) (at value (i + 1)) ≡ u
    → begin_loop (suc fuel) value i end
      ≡ round t u (begin_loop fuel value (i + 1) end) (begin_loop fuel value (i + 2) end) (some i)
unfolding begin_loop
begin_round fuel value i end t u h e f = rw (lt→ltb i end h, e, f) refl

pub end_round :
    (fuel : ℕ) (value : Bytes) (i end : ℕ) (t u : Bool)
    → i < end
    → is_space (at value (end - 1)) ≡ t
    → nbsp_test (end - i) (at value (end - 2)) (at value (end - 1)) ≡ u
    → end_loop (suc fuel) value i end
      ≡ round t u (end_loop fuel value i (end - 1)) (end_loop fuel value i (end - 2)) (some end)
unfolding end_loop
end_round fuel value i end t u h e f = rw (lt→ltb i end h, e, f) refl

-- Both branches of two rounds that make the same tests.
pub both_rounds :
    (P : Option ℕ → Bytes → Type 0) (t u : Bool) {o o' o'' : Option ℕ} {s s' s'' : Bytes}
    → P o s
    → P o' s'
    → P o'' s''
    → P (round t u o o' o'') (if t then s else if u then s' else s'')
both_rounds P true u p p' p'' = p
both_rounds P false true p p' p'' = p'
both_rounds P false false p p' p'' = p''
