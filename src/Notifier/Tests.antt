-- ===== src/Notifier/Tests.antt =====
-- The notifier on a disk on which every write goes well.
use habr_parser.Base.{refl, ◌≡◌, ◌≢◌, arith, false, none, utf8, All, is_empty}
use habr_parser.Double.Whole.{whole}
use habr_parser.Json.Frames.{frames_json}
use habr_parser.Samples.{notifier_config, good_disk, digest_text}
use habr_parser.Notifier.{
  Files, to_file_name_token, digest_path, write_file_atomically, handle_digest_ready, safe_bytes,
}
use habr_parser.Notifier.Token.{IsSafe, to_file_name_token-IsSafe}
use habr_parser.Clock.{now_iso8601_utc}
use habr_parser.Notifier.Names.{digest_path-now}
use habr_parser.Notifier.Atomic.{Effect, write_file_atomically-Effect}
use habr_parser.Notifier.Delivery.{Outcome, handle_digest_ready-Outcome}

abbrev no_files : Files
no_files path = none

to_file_name_token-IsSafe_example :
    All IsSafe (to_file_name_token (utf8 "../etc"))
    × (is_empty (to_file_name_token (utf8 "../etc")) ≡ false)
to_file_name_token-IsSafe_example = to_file_name_token-IsSafe (utf8 "../etc")

token : to_file_name_token (utf8 "../etc:1") ≡ utf8 "---etc-1"
unfolding to_file_name_token safe_bytes utf8
token = refl

write_file_atomically-Effect_example :
    Effect good_disk
      (utf8 "/data/latest.md")
      (utf8 "# Habr")
      no_files
      (write_file_atomically good_disk (utf8 "/data/latest.md") (utf8 "# Habr") no_files)
write_file_atomically-Effect_example =
    write_file_atomically-Effect good_disk (utf8 "/data/latest.md") (utf8 "# Habr") no_files

handle_digest_ready-Outcome_example :
    let r =
      handle_digest_ready whole frames_json notifier_config good_disk good_disk
        (digest_text (utf8 "t"))
        no_files in
    Outcome whole frames_json notifier_config good_disk good_disk
      (digest_text (utf8 "t"))
      no_files
      r.0
      r.1
handle_digest_ready-Outcome_example =
    handle_digest_ready-Outcome whole frames_json notifier_config good_disk good_disk
      (digest_text (utf8 "t")) no_files

digest_path-now_example :
    digest_path notifier_config (now_iso8601_utc 1704067200)
    ≢ digest_path notifier_config (now_iso8601_utc 1704067201)
digest_path-now_example =
    digest_path-now notifier_config 1704067200 1704067201 (omega arith) (omega arith)
      (λ e. absurd (omega (arith, e)))
