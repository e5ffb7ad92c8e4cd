-- ===== src/Log/Lines.antt =====
-- One line for one statement, and what a reader of the line finds.
use habr_parser.Base.{
  ℕ, suc, ◌+◌, ◌≡◌, refl, sym, ap, ◌∙◌, List, [], ◌∷◌, ◌++◌, append_assoc, append-nil, false, Bytes,
  utf8, written, All, length, take, drop, arith, ◌==◌, if◌then◌else◌,
}
use native.Mathlib.Nat.{zero-add}
use habr_parser.Log.{
  Log, LogLine, Severity, level_of, log_line, put, put_all, close, open_line, log,
}

abbrev NotBracket : ℕ → Type 0
NotBracket c = (c == b']') ≡ false

-- The bytes before the first `]`, and those from it on.
abbrev pub until : Bytes → Bytes × Bytes
until [] = ([], [])
until (c ∷ s) = let (word, rest) = until s in if c == b']' then ([], c ∷ s) else (c ∷ word, rest)

until-append :
    (word rest : Bytes) → All NotBracket word → until (word ++ b']' ∷ rest) ≡ (word, b']' ∷ rest)
until-append [] rest h = refl
until-append (c ∷ word) rest (hc, h) = rw (hc, until-append word rest h) refl

pub record Fields : Type 0 where
  pub time : Bytes
  pub level : Bytes
  pub name : Bytes
  pub message : Bytes

-- `TIME [LEVEL] [NAME] MESSAGE`, with a time of 20 bytes.
abbrev pub fields_of : Bytes → Fields
fields_of line =
    let (level, rest) = until (drop 22 line) in
    let (name, rest') = until (drop 3 rest) in
    record { time = take 20 line; level = level; name = name; message = drop 2 rest' }

drop-append : (xs ys : Bytes) (n : ℕ) → drop (length xs + n) (xs ++ ys) ≡ drop n ys
drop-append [] ys n = rw (zero-add n) refl
drop-append (x ∷ xs) ys n =
    ap (λ m. drop m (x ∷ xs ++ ys)) (suc_plus (length xs)) ∙ drop-append xs ys n
  where
    suc_plus : (k : ℕ) → suc k + n ≡ suc (k + n)
    suc_plus k = omega arith

take-append : (xs ys : Bytes) → take (length xs) (xs ++ ys) ≡ xs
take-append [] ys = refl
take-append (x ∷ xs) ys = ap (◌∷◌ x) (take-append xs ys)

-- The text of a line.
abbrev text_of_fields : Fields → Bytes
text_of_fields f =
    f.time ++ b' ' ∷ b'[' ∷ (f.level ++ b']' ∷ b' ' ∷ b'[' ∷ (f.name ++ b']' ∷ b' ' ∷ f.message))

fields_of-text :
    (f : Fields)
    → length f.time ≡ 20
    → All NotBracket f.level
    → All NotBracket f.name
    → fields_of (text_of_fields f) ≡ f
fields_of-text f h level name =
    let rest = f.level ++ b']' ∷ b' ' ∷ b'[' ∷ (f.name ++ b']' ∷ b' ' ∷ f.message) in
    let e : drop 22 (text_of_fields f) ≡ rest =
      ap (λ n. drop n (text_of_fields f)) (sym two_more) ∙ drop-append f.time _ 2 in
    let e' : take 20 (text_of_fields f) ≡ f.time =
      ap (λ n. take n (text_of_fields f)) (sym h) ∙ take-append f.time _ in
    rw (e, e', until-append f.level _ level, until-append f.name _ name) refl
  where
    two_more : length f.time + 2 ≡ 22
    two_more = omega (arith, h)

put_all_lem :
    (values : List Bytes) (line : LogLine)
    → ((put_all values line).buffer ≡ line.buffer ++ written values)
      × ((put_all values line).to_stderr ≡ line.to_stderr)
unfolding put_all put
put_all_lem [] line = (sym (append-nil line.buffer), refl)
put_all_lem (value ∷ values) line =
    let (e, e') = put_all_lem values (put value line) in
    (e ∙ append_assoc line.buffer value (written values), e')

-- Information goes to the standard output, warnings and errors to the standard error.
abbrev pub target : Severity → Log → Bytes
target Severity.info l = l.cout
target _ l = l.cerr

abbrev pub bystander : Severity → Log → Bytes
bystander Severity.info l = l.cerr
bystander _ l = l.cout

level-NotBracket : (severity : Severity) → All NotBracket (level_of severity)
unfolding utf8
level-NotBracket Severity.info = (refl, (refl, (refl, (refl, tt))))
level-NotBracket Severity.warn = (refl, (refl, (refl, (refl, tt))))
level-NotBracket Severity.error = (refl, (refl, (refl, (refl, (refl, tt)))))

-- Where and how a line is opened.
open_line_lem :
    (severity : Severity) (now : Bytes) (l : Log)
    → (line : LogLine) × (open_line severity now l ≡ line)
      × (line.buffer
          ≡ written
              (now ∷ utf8 " [" ∷ level_of severity ∷ utf8 "] [" ∷ l.service_name ∷ utf8 "] " ∷ []))
      × ((end : LogLine)
          → end.to_stderr ≡ line.to_stderr
          → (target severity (close end l) ≡ target severity l ++ (end.buffer ++ utf8 "\n"))
            × (bystander severity (close end l) ≡ bystander severity l))
unfolding open_line log_line close
open_line_lem Severity.info now l = (_, refl, refl, λ end e. rw e (refl, refl))
open_line_lem Severity.warn now l = (_, refl, refl, λ end e. rw e (refl, refl))
open_line_lem Severity.error now l = (_, refl, refl, λ end e. rw e (refl, refl))

line_text :
    (now level name message : Bytes)
    → written (now ∷ utf8 " [" ∷ level ∷ utf8 "] [" ∷ name ∷ utf8 "] " ∷ []) ++ message
      ≡ text_of_fields (record { time = now; level = level; name = name; message = message })
unfolding utf8
line_text now level name message = simp (append_assoc)

-- With a timestamp of 20 bytes and a service name without a closing bracket, a statement of the log
-- adds one line to one stream, the standard output for information and the standard error for
-- warnings and errors, and nothing to the other; and the time, the level, the name and the message
-- can be read from the line.
pub log_lem :
    (severity : Severity) (now : Bytes) (values : List Bytes) (l : Log)
    → length now ≡ 20
    → All NotBracket l.service_name
    → let l' = log severity now values l in
      (line : Bytes) × (target severity l' ≡ target severity l ++ (line ++ utf8 "\n"))
      × (bystander severity l' ≡ bystander severity l)
      × (fields_of line ≡ record {
        time = now;
        level = level_of severity;
        name = l.service_name;
        message = written values;
      })
unfolding log
log_lem severity now values l h name =
    let (line, e, text, closing) = open_line_lem severity now l in
    let (buffer, stream) = put_all_lem values line in
    let (added, same) = closing (put_all values line) stream in
    (
      (put_all values line).buffer,
      rw e added,
      rw e same,
      rw (buffer, text, line_text now (level_of severity) l.service_name (written values))
          (fields_of-text _ h (level-NotBracket severity) name),
    )
