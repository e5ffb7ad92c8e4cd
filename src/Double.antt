-- ===== src/Double.antt =====
-- The C++ type `double`, which the kernel cannot compute with: its values are a parameter `F`, and
-- the operations that the program makes on them are the fields of a record over `F`.
pub mod Whole
use habr_parser.Base.{
  ℕ, ◌+◌, ◌*◌, ◌^◌, ◌≤◌, ◌≡◌, ℤ, pos, Bool, true, false, Option, some, Bytes, to_string,
}

pub record Double (F : Type 0) : Type 0 where
  -- conversion of an int64_t
  pub of_ℤ : ℤ → F
  pub add : F → F → F
  pub mul : F → F → F
  -- the order by which SQL sorts; NaN, which is NULL there, comes first
  pub lt : F → F → Bool
  -- `std::stod`; `none` where it throws
  pub stod : Bytes → Option F
  -- `static_cast<int64_t>`, where the result fits
  pub to_int64 : F → ℤ
  -- `std::fixed << std::setprecision(1)`
  pub print1 : F → Bytes

-- The whole numbers up to 2^53 are exact.
abbrev pub exact_max : ℕ
exact_max = 2 ^ 53

pub record Exact {F : Type 0} (fl : Double F) : Type 0 where
  pub stod-to_string : (n : ℕ) → n ≤ exact_max → fl.stod (to_string n) ≡ some (fl.of_ℤ (pos n))
  pub mul-of_ℤ :
      (m n : ℕ)
      → m ≤ exact_max
      → n ≤ exact_max
      → m * n ≤ exact_max
      → fl.mul (fl.of_ℤ (pos m)) (fl.of_ℤ (pos n)) ≡ fl.of_ℤ (pos (m * n))
  pub to_int64-of_ℤ : (n : ℕ) → n ≤ exact_max → fl.to_int64 (fl.of_ℤ (pos n)) ≡ pos n

-- The order is a total preorder.
pub record Ordered {F : Type 0} (fl : Double F) : Type 0 where
  pub asym : (a b : F) → fl.lt a b ≡ true → fl.lt b a ≡ false
  pub neg_trans : (a b c : F) → fl.lt a b ≡ false → fl.lt b c ≡ false → fl.lt a c ≡ false
