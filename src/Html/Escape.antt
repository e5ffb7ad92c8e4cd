-- ===== src/Html/Escape.antt =====
-- Escaped text holds no markup, and a browser's decoding gives the text back.
use habr_parser.Base.{
  ℕ, zero, suc, ◌≤◌, ◌≡◌, ◌≢◌, refl, ap, [], ◌∷◌, ◌++◌, Option, none, some, arith, Bytes, utf8,
  length, All, All-append, ◌==◌, if◌then◌else◌,
}
use habr_parser.Html.{escape_char, escape_html}

-- A byte that ends text content or a quoted attribute.
abbrev pub IsPlain : ℕ → Type 0
IsPlain c = (c ≢ b'<') × (c ≢ b'>') × (c ≢ b'"') × (c ≢ b'\'')

escape_char-IsPlain : (c : ℕ) → All IsPlain (escape_char c)
unfolding escape_char utf8
escape_char-IsPlain c = ground arith

-- No escaped text holds an angle bracket or a quote, single or double.
pub escape_html-IsPlain : (s : Bytes) → All IsPlain (escape_html s)
unfolding escape_html
escape_html-IsPlain [] = tt
escape_html-IsPlain (c ∷ s) =
    All-append IsPlain (escape_char c) (escape_html s) (escape_char-IsPlain c)
      (escape_html-IsPlain s)

-- What follows a prefix.
abbrev strip : Bytes → Bytes → Option Bytes
strip [] s = some s
strip (p ∷ ps) [] = none
strip (p ∷ ps) (c ∷ s) = let rest = strip ps s in if p == c then rest else none

-- One character of HTML text, and what follows it: the five references, and any byte as itself.
pub decode_one : Bytes → Option (ℕ × Bytes)
unfolding utf8
decode_one [] = none
decode_one (c ∷ s) = elim (strip (utf8 "&amp;") (c ∷ s)) [
  | some r ↦ some (b'&', r)
  | none ↦ elim (strip (utf8 "&lt;") (c ∷ s)) [
    | some r ↦ some (b'<', r)
    | none ↦ elim (strip (utf8 "&gt;") (c ∷ s)) [
      | some r ↦ some (b'>', r)
      | none ↦ elim (strip (utf8 "&quot;") (c ∷ s)) [
        | some r ↦ some (b'"', r)
        | none ↦ elim (strip (utf8 "&#39;") (c ∷ s)) [
          | some r ↦ some (b'\'', r)
          | none ↦ some (c, s)
        ]
      ]
    ]
  ]
]

decode_one-escape_char :
    (c : ℕ) (rest : Bytes) → decode_one (escape_char c ++ rest) ≡ some (c, rest)
unfolding escape_char decode_one
decode_one-escape_char c rest = ground arith

-- The text that a browser shows; the fuel bounds the characters.
pub decode_html : ℕ → Bytes → Bytes
decode_html zero s = []
decode_html (suc f) s = elim (decode_one s) [ none ↦ [] | some (c, r) ↦ c ∷ decode_html f r ]

-- Decoding an escaped text gives the text back, with fuel for its characters.
pub decode_html-escape_html : (f : ℕ) (s : Bytes) → length s ≤ f → decode_html f (escape_html s) ≡ s
unfolding decode_html escape_html decode_one
decode_html-escape_html zero [] h = refl
decode_html-escape_html zero (c ∷ s) h = absurd (omega arith)
decode_html-escape_html (suc f) [] h = refl
decode_html-escape_html (suc f) (c ∷ s) h =
    rw (decode_one-escape_char c (escape_html s), decode_html)
      (ap (◌∷◌ c) (decode_html-escape_html f s (omega arith)))
