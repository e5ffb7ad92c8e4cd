-- ===== src/Parser/Trim.antt =====
-- `Trim` of services/parser/src/html_parser.cpp: white space and no-break spaces, the bytes 0xc2 0xa0,
-- are cut off both ends of a text.
pub mod Loops
use mathlib.Core.List.{reverse-append, reverse-cons, reverse-reverse}
use mathlib.Core.Path.{subst}
use habr_parser.Base.{
  ℕ, ◌≡◌, refl, sym, ap, ◌∙◌, [], ◌∷◌, ◌++◌, append_assoc, reverse, true, false, ◌&&◌, arith, Bytes,
  ◌==◌, if◌then◌else◌, Bool-cases, inl, inr, ◌⊎◌,
}
use habr_parser.Env.{is_space}

-- The loop that moves `begin` forward, over the bytes from `begin` to `end`; `b1 b2` are the bytes
-- of a no-break space. The loop that moves `end` back is the same over the reversed bytes.
unfoldable pub skip_blanks : ℕ → ℕ → Bytes → Bytes
skip_blanks b1 b2 [] = []
skip_blanks b1 b2 (c ∷ []) = if is_space c then [] else c ∷ []
skip_blanks b1 b2 (c ∷ d ∷ s) =
    let after_space = skip_blanks b1 b2 (d ∷ s) in
    let after_nbsp = skip_blanks b1 b2 s in
    if is_space c then after_space else if (c == b1) && (d == b2) then after_nbsp else c ∷ d ∷ s

unfoldable pub trim : Bytes → Bytes
unfolding skip_blanks
trim value = reverse (skip_blanks 0xa0 0xc2 (reverse (skip_blanks 0xc2 0xa0 value)))

-- A sequence of white space and no-break spaces.
pub data Blanks (b1 b2 : ℕ) : Bytes → Type 0 where
  nil : Blanks b1 b2 []
  space : (c : ℕ) (s : Bytes) → is_space c ≡ true → Blanks b1 b2 s → Blanks b1 b2 (c ∷ s)
  nbsp : (c d : ℕ) (s : Bytes) → c ≡ b1 → d ≡ b2 → Blanks b1 b2 s → Blanks b1 b2 (c ∷ d ∷ s)

-- No blank stands first.
abbrev pub Starts : ℕ → ℕ → Bytes → Type 0
Starts b1 b2 [] = Unit
Starts b1 b2 (c ∷ []) = is_space c ≡ false
Starts b1 b2 (c ∷ d ∷ s) = (is_space c ≡ false) × ¬ ((c ≡ b1) × (d ≡ b2))

module _ (b1 b2 : ℕ) where
  skip_blanks-Starts : (s : Bytes) → Starts b1 b2 (skip_blanks b1 b2 s)
  unfolding skip_blanks
  skip_blanks-Starts [] = tt
  skip_blanks-Starts (c ∷ []) = ground arith
  skip_blanks-Starts (c ∷ d ∷ s) = ground (arith, skip_blanks-Starts (d ∷ s), skip_blanks-Starts s)

  -- What is cut off is blank.
  Cut : Bytes → Bytes → Type 0
  Cut s rest = (pre : Bytes) × (s ≡ pre ++ rest) × Blanks b1 b2 pre

  skip_blanks_cases :
      (c d : ℕ) (s : Bytes)
      → ((is_space c ≡ true) × (skip_blanks b1 b2 (c ∷ d ∷ s) ≡ skip_blanks b1 b2 (d ∷ s)))
        ⊎ ((c ≡ b1) × (d ≡ b2) × (skip_blanks b1 b2 (c ∷ d ∷ s) ≡ skip_blanks b1 b2 s))
        ⊎ (skip_blanks b1 b2 (c ∷ d ∷ s) ≡ c ∷ d ∷ s)
  unfolding skip_blanks
  skip_blanks_cases c d s = ground arith

  skip_blanks-Cut : (s : Bytes) → Cut s (skip_blanks b1 b2 s)
  unfolding Cut
  skip_blanks-Cut [] = ([], unfold skip_blanks in refl, nil)
  skip_blanks-Cut (c ∷ []) = elim (Bool-cases (is_space c)) [
    | inl e ↦ (c ∷ [], unfold skip_blanks in rw e, space c [] e nil)
    | inr e ↦ ([], unfold skip_blanks in rw e, nil)
  ]
  skip_blanks-Cut (c ∷ d ∷ s) =
      let (pre, e, b) = skip_blanks-Cut (d ∷ s) in
      let (pre', e', b') = skip_blanks-Cut s in
      elim (skip_blanks_cases c d s) [
        | inl (sp, q) ↦ (c ∷ pre, rw q (ap (◌∷◌ c) e), space c pre sp b)
        | inr (inl (hc, hd, q)) ↦
            (c ∷ d ∷ pre', rw q (ap (λ t. c ∷ d ∷ t) e'), nbsp c d pre' hc hd b')
        | inr (inr q) ↦ ([], sym q, nil)
      ]

  -- A text that starts with no blank is left alone.
  skip_blanks_idle : (s : Bytes) → Starts b1 b2 s → skip_blanks b1 b2 s ≡ s
  unfolding skip_blanks
  skip_blanks_idle [] h = refl
  skip_blanks_idle (c ∷ []) h = ground arith
  skip_blanks_idle (c ∷ d ∷ s) h = ground arith

  Blanks-append : {x y : Bytes} → Blanks b1 b2 x → Blanks b1 b2 y → Blanks b1 b2 (x ++ y)
  Blanks-append nil h = h
  Blanks-append (space c s e g) h = space c _ e (Blanks-append g h)
  Blanks-append (nbsp c d s e e' g) h = nbsp c d _ e e' (Blanks-append g h)

  -- A text that starts with no blank has no prefix that does, but for a cut no-break space.
  Starts-prefix : (x y : Bytes) → Starts b1 b2 (x ++ y) → Starts b1 b2 x
  Starts-prefix [] y h = tt
  Starts-prefix (c ∷ []) [] h = h
  Starts-prefix (c ∷ []) (d ∷ y) h = h.0
  Starts-prefix (c ∷ d ∷ x) y h = h

-- Blanks read backwards are blanks with the bytes of the no-break space exchanged.
Blanks-reverse : {b1 b2 : ℕ} {s : Bytes} → Blanks b1 b2 s → Blanks b2 b1 (reverse s)
Blanks-reverse nil = nil
Blanks-reverse {b1} {b2} (space c s e g) =
    rw (reverse-cons c s) (Blanks-append b2 b1 (Blanks-reverse g) (space c [] e nil))
Blanks-reverse {b1} {b2} (nbsp c d s e e' g) =
    rw (reverse-cons c (d ∷ s), reverse-cons d s, append_assoc)
      (Blanks-append b2 b1 (Blanks-reverse g) (nbsp d c [] e' e nil))

-- `Trim` cuts off a sequence of blanks at each end, and what is left neither starts nor ends with a
-- blank: read from the end, the bytes of a no-break space come in the other order.
pub trim_lem :
    (s : Bytes)
    → (pre post : Bytes) × (s ≡ pre ++ (trim s ++ post))
      × Blanks 0xc2 0xa0 pre
      × Blanks 0xc2 0xa0 post
      × Starts 0xc2 0xa0 (trim s)
      × Starts 0xa0 0xc2 (reverse (trim s))
unfolding trim Cut
trim_lem s =
    let front = skip_blanks 0xc2 0xa0 s in
    let back = skip_blanks 0xa0 0xc2 (reverse front) in
    let (pre, e, b) = skip_blanks-Cut 0xc2 0xa0 s in
    let (post, e', b') = skip_blanks-Cut 0xa0 0xc2 (reverse front) in
    let whole : front ≡ reverse back ++ reverse post =
      sym (reverse-reverse front) ∙ ap reverse e' ∙ reverse-append post back in
    (
      pre,
      reverse post,
      e ∙ ap (◌++◌ pre) whole,
      b,
      Blanks-reverse b',
      Starts-prefix 0xc2 0xa0 (reverse back) (reverse post)
          (subst (Starts 0xc2 0xa0) whole (skip_blanks-Starts 0xc2 0xa0 s)),
      rw (reverse-reverse back) (skip_blanks-Starts 0xa0 0xc2 (reverse front)),
    )

-- `Trim` is idempotent: a second one changes nothing.
pub trim-trim : (s : Bytes) → trim (trim s) ≡ trim s
trim-trim s =
    let (_, _, _, _, _, first, last) = trim_lem s in
    unfold trim in
    ap (λ t. reverse (skip_blanks 0xa0 0xc2 (reverse t)))
      (skip_blanks_idle 0xc2 0xa0 (trim s) first)
    ∙ ap reverse (skip_blanks_idle 0xa0 0xc2 (reverse (trim s)) last)
    ∙ reverse-reverse (trim s)
