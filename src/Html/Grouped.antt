-- ===== src/Html/Grouped.antt =====
-- What `FormatNumber` prints is the number in groups of three digits.
use habr_parser.Base.{
  ℕ, ◌+◌, ◌^◌, ◌/◌, ◌%◌, zero, ◌≤◌, ◌<◌, ◌≡◌, refl, sym, ap, ◌∙◌, [], ◌∷◌, ◌++◌, reverse, ℤ, pos,
  negsuc, suc, arith, Bytes, to_string, to_string_step, to_string_digit, length, length-append,
  length-reverse, Bool-cases, inl, inr, ltb, ltb→lt, ltb→ge, if◌then◌else◌,
}
use mathlib.Core.Path.{subst}
use mathlib.Core.List.{reverse-append, reverse-reverse}
use habr_parser.Html.{group_digits, magnitude, is_negative, format_number}
use habr_parser.Html.Number.{last_three, format_number-thousands}

pub data Grouped : ℕ → Bytes → Type 0 where
  below : (n : ℕ) → n < 1000 → Grouped n (to_string n)
  -- The thousands, a space and the last three digits, zeros included.
  thousands :
      (n : ℕ) {print : Bytes}
      → 1000 ≤ n
      → Grouped (n / 1000) print
      → Grouped n (print ++ b' ' ∷ last_three n)

group_digits_short : (seen : ℕ) (ds : Bytes) → seen + length ds ≤ 3 → group_digits seen ds ≡ ds
unfolding group_digits
group_digits_short seen [] h = refl
group_digits_short seen (d ∷ ds) h = ground (arith, group_digits_short (seen + 1) ds (omega arith))

length-to_string : (n : ℕ) → n < 1000 → length (to_string n) ≤ 3
length-to_string n h = elim (Bool-cases (ltb n 10)) [
  | inl e ↦ rw (to_string_digit n (ltb→lt n 10 e)) (omega arith)
  | inr e ↦ rw (to_string_step n (ltb→ge n 10 e)) (
      omega (
        arith,
        length-append (to_string (n / 10)) ((b'0' + n % 10) ∷ []),
        tens (n / 10) (omega arith),
      ))
]
  where
    tens : (m : ℕ) → m < 100 → length (to_string m) ≤ 2
    tens m h = elim (Bool-cases (ltb m 10)) [
      | inl e ↦ rw (to_string_digit m (ltb→lt m 10 e)) (omega arith)
      | inr e ↦
          rw (to_string_step m (ltb→ge m 10 e), to_string_digit (m / 10) (omega arith))
            (omega arith)
    ]

format_number_small : (n : ℕ) → n < 1000 → format_number (pos n) ≡ to_string n
unfolding format_number
format_number_small n h =
    ap reverse (
      group_digits_short 0 (reverse (to_string n))
        (omega (arith, length-reverse (to_string n), length-to_string n h)))
    ∙ reverse-reverse (to_string n)

print-Grouped : (fuel n : ℕ) → n ≤ fuel → Grouped n (format_number (pos n))
print-Grouped zero n h =
    subst (Grouped n) (sym (format_number_small n (omega arith))) (below n (omega arith))
print-Grouped (suc fuel) n h = elim (Bool-cases (ltb n 1000)) [
  | inl e ↦
      let small = ltb→lt n 1000 e in
      subst (Grouped n) (sym (format_number_small n small)) (below n small)
  | inr e ↦
      let large = ltb→ge n 1000 e in
      subst (Grouped n) (sym (format_number-thousands n large))
        (thousands n large (print-Grouped fuel (n / 1000) (omega arith)))
]

format_number_negative : (n : ℕ) → format_number (negsuc n) ≡ b'-' ∷ format_number (pos (suc n))
unfolding format_number
format_number_negative n = reverse-append (group_digits 0 (reverse (to_string (suc n)))) (b'-' ∷ [])

-- For an int64_t that is not the least one, whose negation would overflow, `FormatNumber` prints the
-- sign of the number, and then its magnitude in groups of three digits: the
-- decimal digits of a number below a thousand, and else the print of the thousands, a space and the
-- last three digits, zeros included.
pub format_number-Grouped :
    (v : ℤ)
    → magnitude v < 2 ^ 63
    → (print : Bytes) × (format_number v ≡ (if is_negative v then b'-' ∷ [] else []) ++ print)
      × Grouped (magnitude v) print
format_number-Grouped (pos n) fits = (format_number (pos n), refl, print-Grouped n n (omega arith))
format_number-Grouped (negsuc n) fits = (
  format_number (pos (suc n)),
  format_number_negative n,
  print-Grouped (suc n) (suc n) (omega arith),
)
