-- ===== src/Html/Number.antt =====
-- `FormatNumber`: the digits of the number, with a space between groups of three.
use mathlib.Core.List.{reverse-cons, reverse-append, reverse-reverse}
use habr_parser.Base.{
  ℕ, suc, ◌+◌, ◌/◌, ◌%◌, ◌≤◌, ◌≡◌, ◌≢◌, refl, sym, ap, ◌∙◌, [], ◌∷◌, ◌++◌, reverse, append_assoc,
  append-nil, ℤ, pos, negsuc, arith, if_split, ltb, ◌&&◌, Bytes, to_string, to_string-ne-nil,
  to_string_step, to_string-IsDigit, IsDigit, All-reverse, All, ltb, ◌==◌, if◌then◌else◌,
}
use habr_parser.Html.{group_digits, magnitude, is_negative, format_number}

unfoldable pub drop_spaces : Bytes → Bytes
drop_spaces [] = []
drop_spaces (c ∷ s) = let rest = drop_spaces s in if c == b' ' then rest else c ∷ rest

drop_spaces-append : (xs ys : Bytes) → drop_spaces (xs ++ ys) ≡ drop_spaces xs ++ drop_spaces ys
unfolding drop_spaces
drop_spaces-append [] ys = refl
drop_spaces-append (x ∷ xs) ys = ground (arith, drop_spaces-append xs ys)

drop_spaces-reverse : (xs : Bytes) → drop_spaces (reverse xs) ≡ reverse (drop_spaces xs)
unfolding drop_spaces
drop_spaces-reverse [] = refl
drop_spaces-reverse (x ∷ xs) =
    rw (reverse-cons x xs, drop_spaces-append (reverse xs) (x ∷ []), drop_spaces-reverse xs)
      (ground (arith, reverse-cons x (drop_spaces xs), append-nil (reverse (drop_spaces xs))))

drop_spaces-group_digits :
    (seen : ℕ) (ds : Bytes) → All IsDigit ds → drop_spaces (group_digits seen ds) ≡ ds
unfolding drop_spaces group_digits
drop_spaces-group_digits seen [] h = refl
drop_spaces-group_digits seen (d ∷ ds) h =
    ground (arith, drop_spaces-group_digits (seen + 1) ds h.1)

grouped : ℕ → Bytes
grouped n = group_digits 0 (reverse (to_string n))

drop_spaces-reverse-grouped : (n : ℕ) → drop_spaces (reverse (grouped n)) ≡ to_string n
unfolding grouped
drop_spaces-reverse-grouped n =
    drop_spaces-reverse (grouped n)
    ∙ ap reverse (
        drop_spaces-group_digits 0 (reverse (to_string n))
          (All-reverse IsDigit (to_string n) (to_string-IsDigit n)))
    ∙ reverse-reverse (to_string n)

module _ {κ} (P : ℕ → Type κ) (of_digit : (c : ℕ) → IsDigit c → P c) (of_space : P b' ') where
  group_digits-All : (seen : ℕ) (ds : Bytes) → All IsDigit ds → All P (group_digits seen ds)
  unfolding group_digits
  group_digits-All seen [] h = tt
  group_digits-All seen (d ∷ ds) (hd, h) =
      let rest : All P (d ∷ group_digits (seen + 1) ds) =
        (of_digit d hd, group_digits-All (seen + 1) ds h) in
      if_split (All P) (ltb 0 seen && (seen % 3 == 0)) (λ _. (of_space, rest)) (λ _. rest)

  grouped-All : (n : ℕ) → All P (reverse (grouped n))
  unfolding grouped
  grouped-All n =
      All-reverse P _
        (group_digits-All 0 _ (All-reverse IsDigit (to_string n) (to_string-IsDigit n)))

  -- What holds of digits and of the space holds of every byte of a print without sign.
  pub format_number_pos-All : (n : ℕ) → All P (format_number (pos n))
  unfolding format_number grouped
  format_number_pos-All n = grouped-All n

  -- And of every print, if it holds of the sign.
  pub format_number-All : P b'-' → (v : ℤ) → All P (format_number v)
  unfolding format_number grouped
  format_number-All of_minus (pos n) = grouped-All n
  format_number-All of_minus (negsuc n) =
      rw (reverse-append (grouped (suc n)) (b'-' ∷ [])) (of_minus, grouped-All (suc n))

-- Without its spaces what `FormatNumber` prints is the sign of the number and its decimal digits.
pub drop_spaces-format_number :
    (v : ℤ)
    → drop_spaces (format_number v)
      ≡ (if is_negative v then b'-' ∷ [] else []) ++ to_string (magnitude v)
unfolding format_number grouped
drop_spaces-format_number (pos n) = drop_spaces-reverse-grouped n
drop_spaces-format_number (negsuc n) =
    rw (reverse-append (grouped (suc n)) (b'-' ∷ []))
      (unfold drop_spaces in ap (◌∷◌ b'-') (drop_spaces-reverse-grouped (suc n)))

-- The spaces repeat every three digits.
group_digits_period :
    (seen : ℕ) (ds : Bytes) → group_digits (suc seen + 3) ds ≡ group_digits (suc seen) ds
unfolding group_digits
group_digits_period seen [] = refl
group_digits_period seen (d ∷ ds) = ground (arith, group_digits_period (suc seen) ds)

group_digits_three :
    (a b c : ℕ) (ds : Bytes)
    → ds ≢ []
    → group_digits 0 (a ∷ b ∷ c ∷ ds) ≡ a ∷ b ∷ c ∷ b' ' ∷ group_digits 0 ds
unfolding group_digits
group_digits_three a b c [] h = absurd (h refl)
group_digits_three a b c (d ∷ ds) h = ground (arith, group_digits_period 0 ds)

-- The last three digits.
abbrev pub last_three : ℕ → Bytes
last_three n = (b'0' + n / 100 % 10) ∷ (b'0' + n / 10 % 10) ∷ (b'0' + n % 10) ∷ []

to_string-thousands : (n : ℕ) → 1000 ≤ n → to_string n ≡ to_string (n / 1000) ++ last_three n
to_string-thousands n h =
    rw
      (
        to_string_step n (omega arith),
        to_string_step (n / 10) (omega arith),
        to_string_step (n / 10 / 10) (omega arith),
      )
      (rw (quotient, hundreds) (simp append_assoc))
  where
    quotient : n / 10 / 10 / 10 ≡ n / 1000
    quotient = omega arith

    hundreds : n / 10 / 10 % 10 ≡ n / 100 % 10
    hundreds = omega arith

reverse-to_string-ne-nil : (n : ℕ) → reverse (to_string n) ≢ []
reverse-to_string-ne-nil n e =
    to_string-ne-nil n (sym (reverse-reverse (to_string n)) ∙ ap reverse e)

grouped-thousands :
    (n : ℕ) → 1000 ≤ n → grouped n ≡ reverse (last_three n) ++ b' ' ∷ grouped (n / 1000)
unfolding grouped
grouped-thousands n h =
    rw (to_string-thousands n h, reverse-append (to_string (n / 1000)) (last_three n))
      (group_digits_three _ _ _ _ (reverse-to_string-ne-nil (n / 1000)))

-- From a thousand on, the print is that of the thousands, a space and the last three digits.
pub format_number-thousands :
    (n : ℕ)
    → 1000 ≤ n
    → format_number (pos n) ≡ format_number (pos (n / 1000)) ++ b' ' ∷ last_three n
unfolding format_number grouped
format_number-thousands n h =
    ap reverse (grouped-thousands n h)
    ∙ reverse-append (reverse (last_three n)) (b' ' ∷ grouped (n / 1000))
    ∙ ap (λ t. t ++ last_three n) (reverse-cons b' ' (grouped (n / 1000)))
    ∙ append_assoc (reverse (grouped (n / 1000))) (b' ' ∷ []) (last_three n)
