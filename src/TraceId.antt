-- ===== src/TraceId.antt =====
-- `GenerateTraceId` of shared/cpp/common/src/time_util.cpp: how the random number is printed. The
-- number itself is an argument.
mod Tests
use habr_parser.Base.{
  ℕ, zero, suc, ◌+◌, ◌-◌, ◌*◌, ◌/◌, ◌%◌, ◌^◌, ◌<◌, ◌≤◌, ◌≡◌, refl, ap, ◌∙◌, [], ◌∷◌, ◌++◌, true,
  false, ◌⊎◌, inl, inr, Bytes, ltb, ltb→lt, ltb→ge, Bool-cases, if◌then◌else◌, length,
  length-append, All, All-append, arith,
}

pub hex_digit : ℕ → ℕ
hex_digit d = if ltb d 10 then b'0' + d else b'a' + (d - 10)

-- What `std::hex` prints; the fuel bounds the digits.
pub hex : ℕ → ℕ → Bytes
hex zero n = []
hex (suc fuel) n = elim (ltb n 16) [
  | true ↦ hex_digit n ∷ []
  | false ↦ hex fuel (n / 16) ++ hex_digit (n % 16) ∷ []
]

pub zeros : ℕ → Bytes
zeros zero = []
zeros (suc n) = b'0' ∷ zeros n

-- `std::setfill('0') << std::setw(8)`, over a 32-bit number, which has at most 8 digits.
pub format_trace_id : ℕ → Bytes
format_trace_id n = let digits = hex 8 n in zeros (8 - length digits) ++ digits

abbrev pub IsHex : ℕ → Type 0
IsHex c = ((b'0' ≤ c) × (c ≤ b'9')) ⊎ ((b'a' ≤ c) × (c ≤ b'f'))

abbrev digit_value : ℕ → ℕ
digit_value c = if ltb c b'a' then c - b'0' else (c - b'a') + 10

-- The number that digits spell behind `n`.
abbrev pub hex_value : ℕ → Bytes → ℕ
hex_value n [] = n
hex_value n (c ∷ s) = hex_value (n * 16 + digit_value c) s

-- 16 to the power of the fuel.
abbrev limit : ℕ → ℕ
limit zero = 1
limit (suc fuel) = 16 * limit fuel

hex_value-append : (n : ℕ) (s t : Bytes) → hex_value n (s ++ t) ≡ hex_value (hex_value n s) t
hex_value-append n [] t = refl
hex_value-append n (c ∷ s) t = hex_value-append (n * 16 + digit_value c) s t

digit_value-hex_digit : (d : ℕ) → d < 16 → digit_value (hex_digit d) ≡ d
unfolding hex_digit
digit_value-hex_digit d h = ground arith

hex_digit-IsHex : (d : ℕ) → d < 16 → IsHex (hex_digit d)
unfolding hex_digit
hex_digit-IsHex d h = ground arith

hex_value-hex : (fuel n : ℕ) → n < limit fuel → hex_value 0 (hex fuel n) ≡ n
unfolding hex
hex_value-hex zero n h = omega arith
hex_value-hex (suc fuel) n h = elim (Bool-cases (ltb n 16)) [
  | inl e ↦ rw (e, hex) (omega (arith, digit_value-hex_digit n (ltb→lt n 16 e)))
  | inr e ↦
      rw (e, hex, hex_value-append 0 (hex fuel (n / 16)) _)
        (omega (arith, ltb→ge n 16 e, digit_value-hex_digit (n % 16), hex_value-hex fuel (n / 16)))
]

hex-IsHex : (fuel n : ℕ) → All IsHex (hex fuel n)
unfolding hex
hex-IsHex zero n = tt
hex-IsHex (suc fuel) n = elim (Bool-cases (ltb n 16)) [
  | inl e ↦ rw (e, hex) (hex_digit-IsHex n (ltb→lt n 16 e), tt)
  | inr e ↦
      rw (e, hex)
        (All-append IsHex _ _ (hex-IsHex fuel (n / 16))
          (hex_digit-IsHex (n % 16) (omega arith), tt))
]

length-hex : (fuel n : ℕ) → length (hex fuel n) ≤ fuel
unfolding hex
length-hex zero n = omega arith
length-hex (suc fuel) n = elim (Bool-cases (ltb n 16)) [
  | inl e ↦ rw (e, hex) (omega arith)
  | inr e ↦
      rw (e, hex)
        (omega (
          arith,
          length-append (hex fuel (n / 16)) (hex_digit (n % 16) ∷ []),
          length-hex fuel (n / 16),
        ))
]

hex_value-zeros : (n : ℕ) (s : Bytes) → hex_value 0 (zeros n ++ s) ≡ hex_value 0 s
unfolding zeros
hex_value-zeros zero s = refl
hex_value-zeros (suc n) s = hex_value-zeros n s

length-zeros : (n : ℕ) → length (zeros n) ≡ n
unfolding zeros
length-zeros zero = refl
length-zeros (suc n) = ap suc (length-zeros n)

zeros-IsHex : (n : ℕ) → All IsHex (zeros n)
unfolding zeros
zeros-IsHex zero = tt
zeros-IsHex (suc n) = (inl (omega arith, omega arith), zeros-IsHex n)

-- The trace id of a 32-bit number is eight lower-case hexadecimal digits that spell the number.
pub format_trace_id_lem :
    (n : ℕ)
    → n < 2 ^ 32
    → (length (format_trace_id n) ≡ 8)
      × All IsHex (format_trace_id n)
      × (hex_value 0 (format_trace_id n) ≡ n)
unfolding format_trace_id
format_trace_id_lem n h =
    let pad = zeros (8 - length (hex 8 n)) in
    (
      omega
          (arith, length-append pad (hex 8 n), length-zeros (8 - length (hex 8 n)), length-hex 8 n),
      All-append IsHex pad (hex 8 n) (zeros-IsHex _) (hex-IsHex 8 n),
      hex_value-zeros (8 - length (hex 8 n)) (hex 8 n) ∙ hex_value-hex 8 n (omega arith),
    )
