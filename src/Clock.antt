-- ===== src/Clock.antt =====
-- `NowIso8601Utc` of shared/cpp/common/src/time_util.cpp, on an instant from the year 1970 on: the
-- seconds since the epoch are an argument, and what the standard library does with them,
-- `gmtime_r` and `std::put_time`, is written out.
pub mod RoundTrip
mod Tests
use habr_parser.Base.{
  Bool, ℕ, zero, suc, ◌+◌, ◌-◌, ◌*◌, ◌/◌, ◌%◌, List, [], ◌∷◌, ◌++◌, not, ◌&&◌, ◌||◌, Bytes,
  to_string, ltb, leb, ◌==◌, if◌then◌else◌,
}

pub record Tm : Type 0 where
  pub year : ℕ
  -- from 1 to 12
  pub month : ℕ
  pub day : ℕ
  pub hour : ℕ
  pub minute : ℕ
  pub second : ℕ

pub is_leap : ℕ → Bool
is_leap y = (y % 4 == 0) && (not (y % 100 == 0) || (y % 400 == 0))

-- 1 in a leap year
abbrev pub leap_days : ℕ → ℕ
leap_days y = if is_leap y then 1 else 0

pub days_in_year : ℕ → ℕ
days_in_year y = 365 + leap_days y

-- Up to July the odd months are the long ones, from August on the even ones.
pub days_in_month : ℕ → ℕ → ℕ
days_in_month y m = if m == 2 then 28 + leap_days y else 30 + (m + m / 8) % 2

-- From the first day of block `i` (a year, a month) on, the block in which day `d` falls, and the
-- days before it there.
pub walk : (ℕ → ℕ) → ℕ → ℕ → ℕ → ℕ × ℕ
walk size zero i d = (i, d)
walk size (suc fuel) i d =
    let later = walk size fuel (suc i) (d - size i) in if ltb d (size i) then (i, d) else later

-- No block is empty, so the days are fuel enough for the years.
pub gmtime : ℕ → Tm
gmtime now =
    let (year, day) = walk days_in_year (now / 86400) 1970 (now / 86400) in
    let (month, rest) = walk (days_in_month year) 11 1 day in
    record {
      year = year;
      month = month;
      day = suc rest;
      hour = now % 86400 / 3600;
      minute = now % 3600 / 60;
      second = now % 60;
    }

-- `%m` and its like
abbrev pub two_digits : ℕ → Bytes
two_digits n = (b'0' + n / 10) ∷ (b'0' + n % 10) ∷ []

-- `%Y-%m-%dT%H:%M:%SZ`
pub put_time : Tm → Bytes
put_time t =
    to_string t.year
    ++ b'-'
      ∷ (two_digits t.month
          ++ b'-'
            ∷ (two_digits t.day
                ++ b'T'
                  ∷ (two_digits t.hour
                      ++ b':'
                        ∷ (two_digits t.minute ++ b':' ∷ (two_digits t.second ++ b'Z' ∷ [])))))

pub now_iso8601_utc : ℕ → Bytes
now_iso8601_utc now = put_time (gmtime now)
