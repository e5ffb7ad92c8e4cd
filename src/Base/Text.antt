-- ===== src/Base/Text.antt =====
-- A `std::string` is a list of bytes. Literals are written as texts and encoded in UTF-8.
use Prim.Native.Char.{code}
use Prim.Native.Nat.{ℕ, zero, suc, ◌+◌, ◌-◌, ◌*◌, ◌/◌, ◌%◌, ◌≤◌, ◌<◌}
use Prim.Native.String.{String}
use mathlib.Core.Bool.{Bool, true, false, ◌&&◌}
use mathlib.Core.List.{List, [], ◌∷◌, ◌++◌, foldl, concat-ne-nil}
use mathlib.Core.Logic.{◌↔◌, ◌≢◌, inl, inr}
use mathlib.Core.Path.{◌≡◌, refl, sym, ◌∙◌}
use native.Mathlib.Omega.{arith}
use habr_parser.Base.Tests.{ltb, ◌==◌, if◌then◌else◌, Bool-cases, ltb→lt, ltb→ge}
use habr_parser.Base.Lists.{All, All-append}

abbrev pub Bytes : Type 0
Bytes = List ℕ

-- The bytes of one code point.
abbrev encode_point : ℕ → Bytes
encode_point c =
    if ltb c 0x80
    then c ∷ []
    else if ltb c 0x800
    then (0xc0 + c / 0x40) ∷ (0x80 + c % 0x40) ∷ []
    else (0xe0 + c / 0x1000) ∷ (0x80 + c / 0x40 % 0x40) ∷ (0x80 + c % 0x40) ∷ []

unfoldable pub utf8 : String → Bytes
utf8 String.[] = []
utf8 (String.◌∷◌ c s) = encode_point (code c) ++ utf8 s

-- What a chain of `<<` writes to a stream.
abbrev pub written : List Bytes → Bytes
written [] = []
written (b ∷ bs) = b ++ written bs

abbrev pub bytes_eq : Bytes → Bytes → Bool
bytes_eq [] [] = true
bytes_eq [] (y ∷ ys) = false
bytes_eq (x ∷ xs) [] = false
bytes_eq (x ∷ xs) (y ∷ ys) = (x == y) && bytes_eq xs ys

-- `std::to_string` of an unsigned number; the fuel `n + 1` exceeds the number of digits.
digits : ℕ → ℕ → Bytes
digits zero n = []
digits (suc f) n = elim (ltb n 10) [
  | true ↦ (b'0' + n) ∷ []
  | false ↦ digits f (n / 10) ++ (b'0' + n % 10) ∷ []
]

unfoldable pub to_string : ℕ → Bytes
unfolding digits
to_string n = digits (suc n) n

abbrev pub IsDigit : ℕ → Type 0
IsDigit c = (b'0' ≤ c) × (c ≤ b'9')

digits_fuel : (f g n : ℕ) → n < f → n < g → digits f n ≡ digits g n
unfolding digits
digits_fuel zero g n h k = absurd (omega arith)
digits_fuel (suc f) zero n h k = absurd (omega arith)
digits_fuel (suc f) (suc g) n h k = ground (arith, digits_fuel f g (n / 10))

-- The last digit, and those before it.
pub to_string_step : (n : ℕ) → 10 ≤ n → to_string n ≡ to_string (n / 10) ++ (b'0' + n % 10) ∷ []
unfolding to_string
to_string_step n h = ground (arith, digits_fuel n (suc (n / 10)) (n / 10))

pub to_string_digit : (n : ℕ) → n < 10 → to_string n ≡ (b'0' + n) ∷ []
unfolding to_string
to_string_digit n h = ground arith

pub to_string-ne-nil : (n : ℕ) → to_string n ≢ []
to_string-ne-nil n e = elim (Bool-cases (ltb n 10)) [
  | inl h ↦ cc (to_string_digit n (ltb→lt n 10 h))
  | inr h ↦ concat-ne-nil _ _ (sym (to_string_step n (ltb→ge n 10 h)) ∙ e)
]

-- `digits` stays shut from here on.
digits-IsDigit : (f n : ℕ) → All IsDigit (digits f n)
unfolding digits
digits-IsDigit zero n = tt
digits-IsDigit (suc f) n = elim (Bool-cases (ltb n 10)) [
  | inl e ↦ rw (e, digits) (omega (arith, ltb→lt n 10 e), tt)
  | inr e ↦ rw (e, digits) (All-append IsDigit _ _ (digits-IsDigit f (n / 10)) (omega arith, tt))
]

pub to_string-IsDigit : (n : ℕ) → All IsDigit (to_string n)
unfolding to_string
to_string-IsDigit n = digits-IsDigit (suc n) n

-- The number that digits spell behind `n`.
abbrev pub value : ℕ → Bytes → ℕ
value = foldl (λ n c. n * 10 + (c - b'0'))

value-append : (n : ℕ) (xs ys : Bytes) → value n (xs ++ ys) ≡ value (value n xs) ys
value-append n [] ys = refl
value-append n (x ∷ xs) ys = value-append (n * 10 + (x - b'0')) xs ys

value-digits : (f n : ℕ) → n < f → value 0 (digits f n) ≡ n
unfolding digits
value-digits zero n h = absurd (omega arith)
value-digits (suc f) n h = elim (Bool-cases (ltb n 10)) [
  | inl e ↦ rw (e, digits) (omega arith)
  | inr e ↦
      rw (e, digits, value-append 0 (digits f (n / 10)) _)
        (omega (arith, ltb→ge n 10 e, value-digits f (n / 10) (omega (arith, ltb→ge n 10 e))))
]

-- The decimal print of a number spells that number.
pub value-to_string : (n : ℕ) → value 0 (to_string n) ≡ n
unfolding to_string
value-to_string n = value-digits (suc n) n (omega arith)

pub bytes_eq_iff : (a b : Bytes) → (bytes_eq a b ≡ true) ↔ (a ≡ b)
bytes_eq_iff [] [] = ground arith
bytes_eq_iff [] (y ∷ ys) = ground arith
bytes_eq_iff (x ∷ xs) [] = ground arith
bytes_eq_iff (x ∷ xs) (y ∷ ys) = ground (arith, bytes_eq_iff xs ys)

pub bytes_eq_refl : (a : Bytes) → bytes_eq a a ≡ true
bytes_eq_refl a = (bytes_eq_iff a a).1 refl

pub bytes_eq→ne : (a b : Bytes) → bytes_eq a b ≡ false → a ≢ b
bytes_eq→ne a b h e = absurd (cc (h, (bytes_eq_iff a b).1 e))

pub ne→bytes_eq : (a b : Bytes) → a ≢ b → bytes_eq a b ≡ false
ne→bytes_eq a b ne = ground (arith, bytes_eq_iff a b)
