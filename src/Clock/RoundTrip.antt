-- ===== src/Clock/RoundTrip.antt =====
-- The timestamp names its second.
use habr_parser.Base.{
  ℕ, zero, suc, ◌+◌, ◌-◌, ◌*◌, ◌/◌, ◌%◌, ◌≤◌, ◌<◌, ◌≡◌, refl, ap, ◌∙◌, [], ◌∷◌, ◌++◌, Bytes,
  to_string, arith, ltb, leb, if◌then◌else◌, if_split, length, ltb→lt, ltb→ge, Bool-cases, inl, inr,
  to_string_step, to_string_digit,
}
use mathlib.Core.Path.{subst}
use native.Mathlib.Nat.{zero-add}
use habr_parser.Clock.{
  Tm, is_leap, leap_days, days_in_year, days_in_month, walk, gmtime, two_digits, put_time,
  now_iso8601_utc,
}

-- The closed formulas of the calendar: the days before a year, and before a month of it.
abbrev days_before_year : ℕ → ℕ
days_before_year y = 365 * (y - 1) + (y - 1) / 4 - (y - 1) / 100 + (y - 1) / 400

abbrev days_before_month : ℕ → ℕ → ℕ
days_before_month y m = (367 * m - 362) / 12 - (if leb m 2 then 0 else 2 - leap_days y)

days_before_year-suc :
    (y : ℕ) → 1 ≤ y → days_before_year (suc y) ≡ days_before_year y + days_in_year y
unfolding days_in_year is_leap
days_before_year-suc y h = ground arith

days_before_month-suc :
    (y m : ℕ)
    → 1 ≤ m
    → m ≤ 11
    → days_before_month y (suc m) ≡ days_before_month y m + days_in_month y m
unfolding days_in_month
days_before_month-suc y m h h' = ground arith

-- The day number of the first of January 1970 is 719162.
abbrev pub timegm : Tm → ℕ
timegm t =
    (days_before_year t.year + days_before_month t.year t.month + t.day - 1 - 719162) * 86400
    + t.hour * 3600
    + t.minute * 60
    + t.second

-- The walk ends in a block it can name, with the day counted alike.
abbrev Found : (size start : ℕ → ℕ) → ℕ → ℕ → ℕ → ℕ × ℕ → Type 0
Found size start fuel i d r =
    (i ≤ r.0)
    × (r.0 ≤ i + fuel)
    × (start r.0 + r.1 ≡ start i + d)
    × (r.0 < i + fuel → r.1 < size r.0)

walk-Found :
    (size start : ℕ → ℕ) (fuel i d : ℕ)
    → ((k : ℕ) → i ≤ k → k < i + fuel → start (suc k) ≡ start k + size k)
    → Found size start fuel i d (walk size fuel i d)
unfolding walk
walk-Found size start zero i d step = (omega arith, omega arith, refl, λ h. absurd (omega arith))
walk-Found size start (suc fuel) i d step =
    if_split (Found size start (suc fuel) i d) (ltb d (size i))
      (λ e. (omega arith, omega arith, refl, λ _. ltb→lt d (size i) e))
      (λ e.
        let (from, to, same, inside) =
          walk-Found size start fuel (suc i) (d - size i)
            (λ k h h'. step k (omega arith) (omega arith)) in
        (
          omega arith,
          omega arith,
          omega (arith, same, step i (omega arith) (omega arith), ltb→ge d (size i) e),
          λ h. inside (omega arith),
        ))

days_in_year-ge : (y : ℕ) → 365 ≤ days_in_year y
unfolding days_in_year
days_in_year-ge y = ground arith

-- The days are fuel enough: the last block is entered with fewer days than it has.
walk_enough :
    (size : ℕ → ℕ)
    → ((k : ℕ) → 1 ≤ size k)
    → (fuel i d : ℕ) → d ≤ fuel
    → let r = walk size fuel i d in r.1 < size r.0
unfolding walk
walk_enough size pos zero i d h = omega (arith, pos i)
walk_enough size pos (suc fuel) i d h =
    if_split (λ (r : ℕ × ℕ). r.1 < size r.0) (ltb d (size i)) (λ e. ltb→lt d (size i) e)
      (λ e. walk_enough size pos fuel (suc i) (d - size i) (omega (arith, pos i)))

-- 10000-01-01T00:00:00Z
abbrev pub end_of_time : ℕ
end_of_time = 253402300800

abbrev pub InRange : Tm → Type 0
InRange t =
    (1970 ≤ t.year)
    × (t.year ≤ 9999)
    × (1 ≤ t.month)
    × (t.month ≤ 12)
    × (1 ≤ t.day)
    × (t.day ≤ 31)
    × (t.hour < 24)
    × (t.minute < 60)
    × (t.second < 60)

year_of :
    (d : ℕ)
    → d < 2932897
    → let r = walk days_in_year d 1970 d in
      (1970 ≤ r.0)
      × (r.0 ≤ 9999)
      × (days_before_year r.0 + r.1 ≡ 719162 + d)
      × (r.1 < days_in_year r.0)
year_of d h =
    let (from, _, same, _) =
      walk-Found days_in_year days_before_year d 1970 d
        (λ k h h'. days_before_year-suc k (omega arith)) in
    let inside =
      walk_enough days_in_year (λ k. omega (arith, days_in_year-ge k)) d 1970 d (omega arith) in
    (from, omega arith, same, inside)

days_in_month-le : (y m : ℕ) → days_in_month y m ≤ 31
unfolding days_in_month
days_in_month-le y m = ground arith

days_before_month_last : (y : ℕ) → days_before_month y 12 + 31 ≡ days_in_year y
unfolding days_in_year
days_before_month_last y = ground arith

day_in_month :
    (y m d r : ℕ)
    → d < days_in_year y
    → m ≤ 12
    → days_before_month y m + r ≡ d
    → (m < 12 → r < days_in_month y m)
    → r < 31
day_in_month y m d r h le same inside = elim (Bool-cases (ltb m 12)) [
  | inl e ↦ omega (arith, inside (ltb→lt m 12 e), days_in_month-le y m)
  | inr e ↦
      let last = m_is_last m le (ltb→ge m 12 e) in
      let same' = subst (λ k. days_before_month y k + r ≡ d) last same in
      omega (arith, same', days_before_month_last y)
]
  where
    m_is_last : (k : ℕ) → k ≤ 12 → 12 ≤ k → k ≡ 12
    m_is_last k a b = omega arith

month_of :
    (y d : ℕ)
    → d < days_in_year y
    → let r = walk (days_in_month y) 11 1 d in
      (1 ≤ r.0) × (r.0 ≤ 12) × (days_before_month y r.0 + r.1 ≡ d) × (r.1 < 31)
month_of y d h =
    let (from, to, same, inside) =
      walk-Found (days_in_month y) (days_before_month y) 11 1 d
        (λ k h h'. days_before_month-suc y k h (omega arith)) in
    let counted = same ∙ zero-add d in (from, to, counted, day_in_month y _ d _ h to counted inside)

-- Broken-down time is in range and names its second.
pub gmtime_lem : (now : ℕ) → now < end_of_time → InRange (gmtime now) × (timegm (gmtime now) ≡ now)
unfolding gmtime
gmtime_lem now h =
    let d = now / 86400 in
    let y = walk days_in_year d 1970 d in
    let m = walk (days_in_month y.0) 11 1 y.1 in
    let (yfrom, yto, ysame, yin) = year_of d (omega arith) in
    let (mfrom, mto, msame, min) = month_of y.0 y.1 yin in
    (
      (yfrom, yto, mfrom, mto, omega arith, min, omega arith, omega arith, omega arith),
      omega (arith, ysame, msame),
    )

abbrev digit : ℕ → ℕ
digit c = c - b'0'

-- Reads the fields by their position, whatever stands between them.
abbrev pub read_stamp : Bytes → Tm
read_stamp
      (y1 ∷ y2 ∷ y3 ∷ y4 ∷ _ ∷ mo1 ∷ mo2 ∷ _ ∷ d1 ∷ d2 ∷ _ ∷ h1 ∷ h2 ∷ _ ∷ mi1 ∷ mi2 ∷ _ ∷ s1 ∷ s2
        ∷ _) =
    record {
      year = digit y1 * 1000 + digit y2 * 100 + digit y3 * 10 + digit y4;
      month = digit mo1 * 10 + digit mo2;
      day = digit d1 * 10 + digit d2;
      hour = digit h1 * 10 + digit h2;
      minute = digit mi1 * 10 + digit mi2;
      second = digit s1 * 10 + digit s2;
    }
read_stamp _ = record { year = 0; month = 0; day = 0; hour = 0; minute = 0; second = 0 }

four_digits :
    (y : ℕ)
    → 1000 ≤ y
    → y < 10000
    → to_string y
      ≡ (b'0' + y / 10 / 10 / 10)
        ∷ (b'0' + y / 10 / 10 % 10)
        ∷ (b'0' + y / 10 % 10)
        ∷ (b'0' + y % 10)
        ∷ []
four_digits y h h' =
    rw
      (
        to_string_step y (omega arith),
        to_string_step (y / 10) (omega arith),
        to_string_step (y / 10 / 10) (omega arith),
        to_string_digit (y / 10 / 10 / 10) (omega arith),
      )
      refl

-- What `put_time` writes of such fields, with `sep` where it writes `:`.
abbrev pub stamp : ℕ → Tm → Bytes
stamp sep t =
    (b'0' + t.year / 10 / 10 / 10)
    ∷ (b'0' + t.year / 10 / 10 % 10)
    ∷ (b'0' + t.year / 10 % 10)
    ∷ (b'0' + t.year % 10)
    ∷ b'-'
    ∷ (two_digits t.month
        ++ b'-'
          ∷ (two_digits t.day
              ++ b'T'
                ∷ (two_digits t.hour
                    ++ sep ∷ (two_digits t.minute ++ sep ∷ (two_digits t.second ++ b'Z' ∷ [])))))

put_time-stamp : (t : Tm) → InRange t → put_time t ≡ stamp b':' t
unfolding put_time
put_time-stamp t (from, to, _, _, _, _, _, _, _) =
    rw (four_digits t.year (omega arith) (omega arith)) refl

Tm-ext :
    {t u : Tm}
    → t.year ≡ u.year
    → t.month ≡ u.month
    → t.day ≡ u.day
    → t.hour ≡ u.hour
    → t.minute ≡ u.minute
    → t.second ≡ u.second
    → t ≡ u
Tm-ext y mo d h mi s = cc (y, mo, d, h, mi, s)

read_stamp-stamp : (sep : ℕ) (t : Tm) → InRange t → read_stamp (stamp sep t) ≡ t
read_stamp-stamp sep t (from, to, _, mo, _, d, h, mi, s) =
    Tm-ext (omega arith) (omega arith) (omega arith) (omega arith) (omega arith) (omega arith)

pub now_iso8601_utc-stamp :
    (now : ℕ) → now < end_of_time → now_iso8601_utc now ≡ stamp b':' (gmtime now)
unfolding now_iso8601_utc
now_iso8601_utc-stamp now h = put_time-stamp (gmtime now) (gmtime_lem now h).0

-- Whatever separates the fields of the time.
pub timegm-stamp :
    (sep now : ℕ) → now < end_of_time → timegm (read_stamp (stamp sep (gmtime now))) ≡ now
timegm-stamp sep now h =
    let (range, same) = gmtime_lem now h in
    ap timegm (read_stamp-stamp sep (gmtime now) range) ∙ same

-- From 1970 to the end of the year 9999, the timestamp has 20 bytes, and reading its fields by their
-- position gives the second that it was made from.
pub now_iso8601_utc_lem :
    (now : ℕ)
    → now < end_of_time
    → (length (now_iso8601_utc now) ≡ 20) × (timegm (read_stamp (now_iso8601_utc now)) ≡ now)
now_iso8601_utc_lem now h = rw (now_iso8601_utc-stamp now h) (refl, timegm-stamp b':' now h)
