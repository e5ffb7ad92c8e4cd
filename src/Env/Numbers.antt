-- ===== src/Env/Numbers.antt =====
-- What the readers return: the number that a decimal print spells, and never more than 32 bits.
use habr_parser.Base.{
  ℕ, ◌+◌, ◌-◌, ◌*◌, ◌%◌, ◌^◌, ◌<◌, ◌≡◌, ◌≢◌, refl, ◌∙◌, ap, [], ◌∷◌, some, arith, Bytes, to_string,
  to_string-ne-nil, to_string-IsDigit, value-to_string, value, IsDigit, All,
}
use habr_parser.Env.{Environ, scan_digits, ulong_mod, stoul, read_uint32_env}

scan_digits-value : (n : ℕ) (s : Bytes) → All IsDigit s → scan_digits n s ≡ value n s
unfolding scan_digits
scan_digits-value n [] h = refl
scan_digits-value n (c ∷ s) h = ground (arith, scan_digits-value (n * 10 + (c - b'0')) s h.1)

stoul_digit_text :
    (s : Bytes) → s ≢ [] → All IsDigit s → value 0 s < ulong_mod → stoul s ≡ some (value 0 s)
unfolding stoul
stoul_digit_text [] ne h lt = absurd (ne refl)
stoul_digit_text (c ∷ s) ne h lt = ground (arith, scan_digits-value 0 (c ∷ s) h)

-- `std::stoul` reads back the decimal print of every 64-bit number.
pub stoul-to_string : (n : ℕ) → n < ulong_mod → stoul (to_string n) ≡ some n
stoul-to_string n h =
    stoul_digit_text (to_string n) (to_string-ne-nil n) (to_string-IsDigit n)
      (rw (value-to_string n) h)
    ∙ ap some (value-to_string n)

-- Every value read fits 32 bits, if the fallback does.
pub read_uint32_env-lt :
    (env : Environ) (name : Bytes) (fallback : ℕ)
    → fallback < 2 ^ 32
    → read_uint32_env env name fallback < 2 ^ 32
unfolding read_uint32_env
read_uint32_env-lt env name fallback h = ground arith

-- A variable that holds the decimal print of a number below 2^64 is read as that number modulo 2^32.
pub read_uint32_env-to_string :
    (env : Environ) (name : Bytes) (fallback n : ℕ)
    → env name ≡ some (to_string n)
    → n < 2 ^ 64
    → read_uint32_env env name fallback ≡ n % 2 ^ 32
unfolding read_uint32_env
read_uint32_env-to_string env name fallback n e h = ground (arith, stoul-to_string n)
