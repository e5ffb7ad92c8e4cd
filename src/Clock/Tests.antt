-- ===== src/Clock/Tests.antt =====
-- Timestamps of some seconds.
use habr_parser.Base.{◌≡◌, refl, length, utf8, to_string, arith}
use habr_parser.Clock.{
  gmtime, walk, days_in_year, days_in_month, is_leap, put_time, now_iso8601_utc,
}
use habr_parser.Clock.RoundTrip.{timegm, read_stamp, now_iso8601_utc_lem}

epoch : now_iso8601_utc 0 ≡ utf8 "1970-01-01T00:00:00Z"
unfolding now_iso8601_utc gmtime walk days_in_year days_in_month is_leap put_time utf8 to_string
epoch = refl

leap_day : now_iso8601_utc 951868799 ≡ utf8 "2000-02-29T23:59:59Z"
unfolding now_iso8601_utc gmtime walk days_in_year days_in_month is_leap put_time utf8 to_string
leap_day = refl

new_year : now_iso8601_utc 1704067200 ≡ utf8 "2024-01-01T00:00:00Z"
unfolding now_iso8601_utc gmtime walk days_in_year days_in_month is_leap put_time utf8 to_string
new_year = refl

now_iso8601_utc_lem_example :
    (length (now_iso8601_utc 951868799) ≡ 20)
    × (timegm (read_stamp (now_iso8601_utc 951868799)) ≡ 951868799)
now_iso8601_utc_lem_example = now_iso8601_utc_lem 951868799 (omega arith)
