-- ===== src/Double/Whole.antt =====
-- The whole numbers as an instance of `Double`, on which the tests run. Their operations are exact.
use habr_parser.Base.{
  ℕ, ◌+◌, ◌*◌, suc, ◌≡◌, refl, ap, ◌++◌, ℤ, pos, negsuc, sub_ℕ, pos_part, neg_part, ltb_ℤ, true,
  false, Option, none, some, Bytes, utf8, to_string, value, value-to_string, to_string-ne-nil,
  is_empty, is_empty→nil, arith, if◌then◌else◌, if_split,
}
use habr_parser.Double.{Double, Exact, Ordered}

-- The difference of two sums of parts.
abbrev add_ℤ : ℤ → ℤ → ℤ
add_ℤ a b = sub_ℕ (pos_part a + pos_part b) (neg_part a + neg_part b)

abbrev mul_ℤ : ℤ → ℤ → ℤ
mul_ℤ (pos m) (pos n) = pos (m * n)
mul_ℤ (pos m) (negsuc n) = sub_ℕ 0 (m * suc n)
mul_ℤ (negsuc m) (pos n) = sub_ℕ 0 (suc m * n)
mul_ℤ (negsuc m) (negsuc n) = pos (suc m * suc n)

-- Digits only.
abbrev read_whole : Bytes → Option ℤ
read_whole s = if is_empty s then none else some (pos (value 0 s))

abbrev print_whole : ℤ → Bytes
print_whole (pos n) = to_string n ++ utf8 ".0"
print_whole (negsuc n) = utf8 "-" ++ to_string (suc n) ++ utf8 ".0"

abbrev pub whole : Double ℤ
whole = record {
  of_ℤ = λ i. i;
  add = add_ℤ;
  mul = mul_ℤ;
  lt = ltb_ℤ;
  stod = read_whole;
  to_int64 = λ i. i;
  print1 = print_whole;
}

read_whole-to_string : (n : ℕ) → read_whole (to_string n) ≡ some (pos n)
read_whole-to_string n =
    if_split (λ o. o ≡ some (pos n)) (is_empty (to_string n))
      (λ e. absurd (to_string-ne-nil n (is_empty→nil e)))
      (λ _. ap (λ v. some (pos v)) (value-to_string n))

pub whole-Exact : Exact whole
whole-Exact = record {
  stod-to_string = λ n _. read_whole-to_string n;
  mul-of_ℤ = λ m n _ _ _. refl;
  to_int64-of_ℤ = λ n _. refl;
}

ltb_ℤ_asym : (a b : ℤ) → ltb_ℤ a b ≡ true → ltb_ℤ b a ≡ false
ltb_ℤ_asym a b h = ground arith

ltb_ℤ_neg_trans : (a b c : ℤ) → ltb_ℤ a b ≡ false → ltb_ℤ b c ≡ false → ltb_ℤ a c ≡ false
ltb_ℤ_neg_trans a b c h k = ground arith

pub whole-Ordered : Ordered whole
whole-Ordered = record { asym = ltb_ℤ_asym; neg_trans = ltb_ℤ_neg_trans }
