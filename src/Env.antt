-- ===== src/Env.antt =====
-- Reading numbers from the environment: the readers that every service's config.cpp and
-- amqp_service.cpp define alike, over the C++ library's `std::stoul`.
pub mod Numbers
use habr_parser.Base.{
  ℕ, ◌+◌, ◌-◌, ◌*◌, ◌%◌, ◌^◌, [], ◌∷◌, Bool, true, false, ◌&&◌, ◌||◌, Option, none, some, Bytes,
  ltb, leb, ◌==◌, if◌then◌else◌,
}

-- What `std::getenv` returns for each name.
abbrev pub Environ : Type 0
Environ = Bytes → Option Bytes

-- `std::isspace` in the C locale.
unfoldable pub is_space : ℕ → Bool
is_space c = (c == b' ') || (leb 9 c && leb c 13)

abbrev pub is_digit : ℕ → Bool
is_digit c = leb b'0' c && leb c b'9'

pub skip_spaces : Bytes → Bytes
skip_spaces [] = []
skip_spaces (c ∷ s) = let rest = skip_spaces s in if is_space c then rest else c ∷ s

-- The number that the leading digits spell behind `n`; the rest is not read.
pub scan_digits : ℕ → Bytes → ℕ
scan_digits n [] = n
scan_digits n (c ∷ s) =
    let more = scan_digits (n * 10 + (c - b'0')) s in if is_digit c then more else n

abbrev starts_with_digit : Bytes → Bool
starts_with_digit [] = false
starts_with_digit (c ∷ s) = is_digit c

abbrev pub ulong_mod : ℕ
ulong_mod = 2 ^ 64

-- The digits behind the sign; `none` where `std::stoul` throws: no digit, or beyond ULONG_MAX.
-- A minus sign negates modulo 2^64.
pub stoul_digits : Bool → Bytes → Option ℕ
unfolding scan_digits
stoul_digits negative s =
    let n = scan_digits 0 s in
    if starts_with_digit s && ltb n ulong_mod
    then some (if negative then (ulong_mod - n) % ulong_mod else n)
    else none

pub stoul_signed : Bytes → Option ℕ
unfolding stoul_digits
stoul_signed [] = none
stoul_signed (c ∷ s) =
    if c == b'-'
    then stoul_digits true s
    else if c == b'+'
    then stoul_digits false s
    else stoul_digits false (c ∷ s)

pub stoul : Bytes → Option ℕ
unfolding stoul_signed skip_spaces is_space
stoul s = stoul_signed (skip_spaces s)

abbrev parsed_or : Option ℕ → ℕ → ℕ
parsed_or none fallback = fallback
parsed_or (some n) fallback = n % 2 ^ 32

abbrev raw_or : Option Bytes → ℕ → ℕ
raw_or none fallback = fallback
raw_or (some raw) fallback = parsed_or (stoul raw) fallback

-- `ReadUint32Env`: the fallback where the variable is not set or `std::stoul` throws.
unfoldable pub read_uint32_env : Environ → Bytes → ℕ → ℕ
read_uint32_env env name fallback = raw_or (env name) fallback

abbrev text_or : Option Bytes → Bytes → Bytes
text_or none fallback = fallback
text_or (some raw) fallback = raw

unfoldable pub read_string_env : Environ → Bytes → Bytes → Bytes
read_string_env env name fallback = text_or (env name) fallback
