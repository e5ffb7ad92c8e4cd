-- ===== src/Notifier/Names.antt =====
-- Two digests of different seconds never share a file: the id of a digest is the timestamp that
-- `PublishDigest` of the storage gives it.
use habr_parser.Base.{
  ℕ, ◌≡◌, ◌≢◌, ◌∙◌, ◌++◌, ◌<◌, ◌/◌, ◌%◌, ◌+◌, refl, sym, ap, [], ◌∷◌, true, Bytes, arith, utf8,
  written, drop, if◌then◌else◌,
}
use habr_parser.Config.{NotifierConfig}
use habr_parser.Clock.{Tm, gmtime, two_digits, now_iso8601_utc}
use habr_parser.Clock.RoundTrip.{
  end_of_time, read_stamp, timegm, stamp, InRange, gmtime_lem, now_iso8601_utc-stamp, timegm-stamp,
}
use habr_parser.Notifier.{is_safe, safe_bytes, to_file_name_token, digest_path}
use habr_parser.Notifier.Token.{join_path_injective}

digit_safe : (d : ℕ) → d < 10 → is_safe (b'0' + d) ≡ true
digit_safe d h = ground arith

-- What `ToFileNameToken` makes of a text, digit by digit and byte by byte.
data Cleans : Bytes → Bytes → Type 0 where
  done : Cleans [] []
  digit : {s s' : Bytes} (d : ℕ) → d < 10 → Cleans s s' → Cleans ((b'0' + d) ∷ s) ((b'0' + d) ∷ s')
  byte :
      {s s' : Bytes} (c : ℕ) → Cleans s s' → Cleans (c ∷ s) ((if is_safe c then c else b'-') ∷ s')

Cleans-safe_bytes : {s s' : Bytes} → Cleans s s' → safe_bytes s ≡ s'
unfolding safe_bytes
Cleans-safe_bytes done = refl
Cleans-safe_bytes (digit d h r) = rw (digit_safe d h) (ap (◌∷◌ (b'0' + d)) (Cleans-safe_bytes r))
Cleans-safe_bytes (byte c r) = ap (◌∷◌ (if is_safe c then c else b'-')) (Cleans-safe_bytes r)

pair :
    {s s' : Bytes} (n : ℕ) → n < 100 → Cleans s s' → Cleans (two_digits n ++ s) (two_digits n ++ s')
pair n h r = digit (n / 10) (omega arith) (digit (n % 10) (omega arith) r)

-- Only the colons are no letters, digits or dashes.
safe_bytes-stamp : (t : Tm) → InRange t → safe_bytes (stamp b':' t) ≡ stamp b'-' t
safe_bytes-stamp t (from, to, _, mo, _, d, h, mi, s) =
    let time = pair t.hour (omega arith) (
      byte b':'
        (pair t.minute (omega arith) (byte b':' (pair t.second (omega arith) (byte b'Z' done))))) in
    let date =
      byte b'-'
        (pair t.month (omega arith) (byte b'-' (pair t.day (omega arith) (byte b'T' time)))) in
    Cleans-safe_bytes (
      digit _ (omega arith)
        (digit _ (omega arith) (digit _ (omega arith) (digit _ (omega arith) date))))

to_file_name_token-now :
    (now : ℕ)
    → now < end_of_time
    → to_file_name_token (now_iso8601_utc now) ≡ stamp b'-' (gmtime now)
unfolding to_file_name_token
to_file_name_token-now now h =
    rw (now_iso8601_utc-stamp now h, safe_bytes-stamp (gmtime now) (gmtime_lem now h).0) refl

-- The second that a file's name tells, behind `digest-`.
second_of-name :
    (now : ℕ)
    → now < end_of_time
    → timegm (
        read_stamp (
          drop 7 (
            written (utf8 "digest-" ∷ to_file_name_token (now_iso8601_utc now) ∷ utf8 ".md" ∷ []))))
      ≡ now
unfolding utf8
second_of-name now h = rw (to_file_name_token-now now h) (timegm-stamp b'-' now h)

-- Up to the end of the year 9999, digests whose ids are the timestamps of different seconds are
-- written to different files.
pub digest_path-now :
    (config : NotifierConfig) (m n : ℕ)
    → m < end_of_time
    → n < end_of_time
    → m ≢ n
    → digest_path config (now_iso8601_utc m) ≢ digest_path config (now_iso8601_utc n)
digest_path-now config m n hm hn ne e = ne (
    sym (second_of-name m hm)
    ∙ ap (λ name. timegm (read_stamp (drop 7 name))) (join_path_injective config.output_dir _ _ e)
    ∙ second_of-name n hn)
