-- ===== src/Log/Tests.antt =====
-- A warning of the parser.
use habr_parser.Base.{◌≡◌, refl, Bytes, [], ◌∷◌, ◌++◌, utf8, written, to_string}
use habr_parser.Log.{
  Log, Severity, level_of, initial, set_service_name, log_line, open_line, put, put_all, close, log,
}
use habr_parser.Log.Lines.{target, bystander, fields_of, log_lem}

abbrev named : Log
named = record { service_name = utf8 "parser"; cout = utf8 "x\n"; cerr = [] }

naming : set_service_name (utf8 "parser") (record initial { cout = utf8 "x\n" }) ≡ named
unfolding set_service_name initial
naming = refl

abbrev stamp : Bytes
stamp = utf8 "2024-01-01T00:00:00Z"

abbrev warned : Log
warned = log Severity.warn stamp (utf8 "Skipped " ∷ to_string 2 ∷ []) named

warned_text : warned.cerr ≡ utf8 "2024-01-01T00:00:00Z [WARN] [parser] Skipped 2\n"
unfolding log close put_all put open_line log_line utf8 to_string
warned_text = refl

log_lem_example :
    (line : Bytes) × (target Severity.warn warned
      ≡ target Severity.warn named ++ (line ++ utf8 "\n"))
    × (bystander Severity.warn warned ≡ bystander Severity.warn named)
    × (fields_of line ≡ record {
      time = stamp;
      level = level_of Severity.warn;
      name = utf8 "parser";
      message = written (utf8 "Skipped " ∷ to_string 2 ∷ []);
    })
unfolding utf8
log_lem_example =
    log_lem Severity.warn stamp (utf8 "Skipped " ∷ to_string 2 ∷ []) named refl
      (refl, (refl, (refl, (refl, (refl, (refl, tt))))))
