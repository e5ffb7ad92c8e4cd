-- ===== src/Parser/Count.antt =====
-- `ParseCount` of services/parser/src/html_parser.cpp: the number in a counter such as `1.2K`.
use habr_parser.Base.{
  ℕ, ◌*◌, ◌≤◌, ◌≡◌, ◌≢◌, refl, ap, ◌∙◌, [], ◌∷◌, ◌++◌, append_assoc, append-nil, Bool, true, false,
  ◌&&◌, ◌||◌, Option, none, some, ℤ, pos, arith, Bytes, bytes_eq, to_string, to_string-IsDigit,
  to_string-ne-nil, IsDigit, All, All-append, is_empty, ◌==◌, if◌then◌else◌, ◌⊎◌, inl, inr,
  if_split,
}
use habr_parser.Double.{Double, Exact, exact_max}
use habr_parser.Env.{is_digit}
use habr_parser.Html.{format_number}
use habr_parser.Html.Number.{drop_spaces, drop_spaces-format_number, format_number_pos-All}

-- The bytes that go into `cleaned`.
abbrev is_number_byte : ℕ → Bool
is_number_byte ch = is_digit ch || (ch == b'-') || (ch == b'.') || (ch == b',')

-- A comma is a decimal point.
abbrev cleaned_byte : ℕ → ℕ
cleaned_byte ch = if ch == b',' then b'.' else ch

-- `raw.compare(i, 2, …) == 0`, for the two bytes of a Cyrillic letter
abbrev is_pair : ℕ → ℕ → Bytes → Bool
is_pair b1 b2 [] = false
is_pair b1 b2 (c ∷ []) = false
is_pair b1 b2 (c ∷ d ∷ s) = (c == b1) && (d == b2)

-- The multiplier after the byte that stands first in `rest`, which goes into no number.
unfoldable pub next_multiplier : ℕ → Bytes → ℕ → ℕ
next_multiplier ch rest multiplier =
    if (ch == b'K') || (ch == b'k')
    then 1000
    else if (ch == b'M') || (ch == b'm')
    then 1000000
    else if is_pair 0xd0 0x9a (ch ∷ rest)
    then 1000
    else if is_pair 0xd0 0x9c (ch ∷ rest)
    then 1000000
    else multiplier

-- The loop over `raw`: the cleaned number and the multiplier.
unfoldable pub scan_count : Bytes → ℕ → Bytes → Bytes × ℕ
unfolding next_multiplier
scan_count cleaned multiplier [] = (cleaned, multiplier)
scan_count cleaned multiplier (ch ∷ raw) =
    let number = scan_count (cleaned ++ cleaned_byte ch ∷ []) multiplier raw in
    let other = scan_count cleaned (next_multiplier ch raw multiplier) raw in
    if is_number_byte ch then number else other

module _ {F : Type 0} (fl : Double F) where
  abbrev scaled : Option F → ℕ → ℤ
  scaled none multiplier = pos 0
  scaled (some x) multiplier = fl.to_int64 (fl.mul x (fl.of_ℤ (pos multiplier)))

  abbrev count_of : Bytes × ℕ → ℤ
  count_of (cleaned, multiplier) =
      if is_empty cleaned || bytes_eq cleaned (b'-' ∷ []) || bytes_eq cleaned (b'.' ∷ [])
      then pos 0
      else scaled (fl.stod cleaned) multiplier

  unfoldable pub parse_count : Bytes → ℤ
  unfolding scan_count
  parse_count raw = count_of (scan_count [] 1 raw)

-- What `std::stod` is given is made of digits, signs and points alone.
abbrev pub IsNumeric : ℕ → Type 0
IsNumeric c = IsDigit c ⊎ (c ≡ b'-') ⊎ (c ≡ b'.')

abbrev pub IsMultiplier : ℕ → Type 0
IsMultiplier m = (m ≡ 1) ⊎ (m ≡ 1000) ⊎ (m ≡ 1000000)

next_multiplier-IsMultiplier :
    (ch : ℕ) (rest : Bytes) (m : ℕ) → IsMultiplier m → IsMultiplier (next_multiplier ch rest m)
unfolding next_multiplier
next_multiplier-IsMultiplier ch rest m h = ground arith

cleaned_byte-IsNumeric : (ch : ℕ) → is_number_byte ch ≡ true → IsNumeric (cleaned_byte ch)
cleaned_byte-IsNumeric ch h = ground arith

-- From digits, signs and points and one of the multipliers, whatever the text, `std::stod` is given digits, signs and points alone (so no exponent, infinity
-- or hexadecimal number), and the multiplier is 1, 1000 or 1000000.
pub scan_count_sound :
    (raw cleaned : Bytes) (multiplier : ℕ)
    → All IsNumeric cleaned
    → IsMultiplier multiplier
    → All IsNumeric (scan_count cleaned multiplier raw).0
      × IsMultiplier (scan_count cleaned multiplier raw).1
unfolding scan_count
scan_count_sound [] cleaned multiplier h m = (h, m)
scan_count_sound (ch ∷ raw) cleaned multiplier h m =
    if_split (λ (r : Bytes × ℕ). All IsNumeric r.0 × IsMultiplier r.1) (is_number_byte ch)
      (λ e.
        scan_count_sound raw _ _ (All-append IsNumeric _ _ h (cleaned_byte-IsNumeric ch e, tt)) m)
      (λ e. scan_count_sound raw _ _ h (next_multiplier-IsMultiplier ch raw multiplier m))

-- A counter as the site prints it: digits with spaces between them.
abbrev IsCounter : ℕ → Type 0
IsCounter c = IsDigit c ⊎ (c ≡ b' ')

scan_count-append :
    (raw suffix cleaned : Bytes) (multiplier : ℕ)
    → All IsCounter raw
    → scan_count cleaned multiplier (raw ++ suffix)
      ≡ scan_count (cleaned ++ drop_spaces raw) multiplier suffix
unfolding scan_count drop_spaces
scan_count-append [] suffix cleaned multiplier h = rw append-nil
scan_count-append (c ∷ raw) suffix cleaned multiplier (h, hs) = ground (
  arith,
  append_assoc cleaned (c ∷ []) (drop_spaces raw),
  scan_count-append raw suffix (cleaned ++ c ∷ []) multiplier hs,
  scan_count-append raw suffix cleaned multiplier hs,
)

-- The suffixes that scale a counter.
pub data Suffix : Type 0 where
  one upper_k lower_k cyrillic_k upper_m lower_m cyrillic_m : Suffix

abbrev pub suffix_text : Suffix → Bytes
suffix_text one = []
suffix_text upper_k = b'K' ∷ []
suffix_text lower_k = b'k' ∷ []
suffix_text cyrillic_k = 0xd0 ∷ 0x9a ∷ []
suffix_text upper_m = b'M' ∷ []
suffix_text lower_m = b'm' ∷ []
suffix_text cyrillic_m = 0xd0 ∷ 0x9c ∷ []

abbrev pub suffix_value : Suffix → ℕ
suffix_value one = 1
suffix_value upper_k = 1000
suffix_value lower_k = 1000
suffix_value cyrillic_k = 1000
suffix_value upper_m = 1000000
suffix_value lower_m = 1000000
suffix_value cyrillic_m = 1000000

scan_count-suffix :
    (cleaned : Bytes) (x : Suffix)
    → scan_count cleaned 1 (suffix_text x) ≡ (cleaned, suffix_value x)
unfolding scan_count
scan_count-suffix cleaned one = refl
scan_count-suffix cleaned upper_k = refl
scan_count-suffix cleaned lower_k = refl
scan_count-suffix cleaned cyrillic_k = refl
scan_count-suffix cleaned upper_m = refl
scan_count-suffix cleaned lower_m = refl
scan_count-suffix cleaned cyrillic_m = refl

scan_count-format_number :
    (n : ℕ) (x : Suffix)
    → scan_count [] 1 (format_number (pos n) ++ suffix_text x) ≡ (to_string n, suffix_value x)
scan_count-format_number n x =
    scan_count-append (format_number (pos n)) (suffix_text x) [] 1
      (format_number_pos-All IsCounter (λ c h. inl h) (inr refl) n)
    ∙ scan_count-suffix _ x
    ∙ ap (λ t. (t, suffix_value x)) (drop_spaces-format_number (pos n))

-- A digit text is none of the texts that are no number.
to_string-proper :
    (n : ℕ)
    → (is_empty (to_string n)
        || bytes_eq (to_string n) (b'-' ∷ [])
        || bytes_eq (to_string n) (b'.' ∷ []))
      ≡ false
to_string-proper n = proper (to_string n) (to_string-ne-nil n) (to_string-IsDigit n)
  where
    proper :
        (s : Bytes)
        → s ≢ []
        → All IsDigit s
        → (is_empty s || bytes_eq s (b'-' ∷ []) || bytes_eq s (b'.' ∷ [])) ≡ false
    proper [] ne h = absurd (ne refl)
    proper (c ∷ s) ne h = ground arith

suffix_small :
    (n : ℕ) (x : Suffix)
    → n * suffix_value x ≤ exact_max
    → (n ≤ exact_max) × (suffix_value x ≤ exact_max)
suffix_small n one h = omega arith
suffix_small n upper_k h = omega arith
suffix_small n lower_k h = omega arith
suffix_small n cyrillic_k h = omega arith
suffix_small n upper_m h = omega arith
suffix_small n lower_m h = omega arith
suffix_small n cyrillic_m h = omega arith

-- A whole number in groups of three digits, with a suffix or none, is read exactly, as long as the
-- scaled number is one that a double holds exactly.
pub parse_count-format_number :
    {F : Type 0} (fl : Double F) (exact : Exact fl) (n : ℕ) (x : Suffix)
    → n * suffix_value x ≤ exact_max
    → parse_count fl (format_number (pos n) ++ suffix_text x) ≡ pos (n * suffix_value x)
unfolding parse_count
parse_count-format_number fl exact n x h =
    rw (scan_count-format_number n x, to_string-proper n, exact.stod-to_string n small.0)
      (rw (exact.mul-of_ℤ n (suffix_value x) small.0 small.1 h, scaled) (exact.to_int64-of_ℤ _ h))
  where
    small : (n ≤ exact_max) × (suffix_value x ≤ exact_max)
    small = suffix_small n x h
