-- ===== src/Html/Skeleton.antt =====
-- The markup of a page does not depend on the texts in it.
use habr_parser.Base.{
  ℕ, ◌+◌, ◌≡◌, refl, List, [], ◌∷◌, ◌++◌, Bool, true, false, ◌||◌, ℤ, arith, Bytes, to_string,
  to_string-IsDigit, IsDigit, All, length, is_empty, ◌==◌, if◌then◌else◌,
}
use habr_parser.Double.{Double}
use habr_parser.Messages.{DigestArticle, DigestReadyMessage}
use habr_parser.Html.{
  escape_html, format_number, render_hubs, render_article, render_articles, render_archive,
  render_body, render_page,
}
use habr_parser.Html.Number.{format_number-All}
use habr_parser.Html.Escape.{IsPlain, escape_html-IsPlain}

-- The angle brackets and quotes of a text, in order.
pub skeleton : Bytes → Bytes
skeleton [] = []
skeleton (c ∷ s) =
    let rest = skeleton s in
    if c == b'<' || c == b'>' || c == b'"' || c == b'\'' then c ∷ rest else rest

skeleton-append : (xs ys : Bytes) → skeleton (xs ++ ys) ≡ skeleton xs ++ skeleton ys
unfolding skeleton
skeleton-append [] ys = refl
skeleton-append (x ∷ xs) ys = ground (arith, skeleton-append xs ys)

skeleton-nil : skeleton [] ≡ []
unfolding skeleton
skeleton-nil = refl

skeleton_plain : (s : Bytes) → All IsPlain s → skeleton s ≡ []
unfolding skeleton
skeleton_plain [] h = refl
skeleton_plain (c ∷ s) h = ground (arith, skeleton_plain s h.1)

skeleton-escape_html : (s : Bytes) → skeleton (escape_html s) ≡ []
skeleton-escape_html s = skeleton_plain _ (escape_html-IsPlain s)

pub digits-IsPlain : (s : Bytes) → All IsDigit s → All IsPlain s
digits-IsPlain [] h = tt
digits-IsPlain (c ∷ s) h = (omega arith, digits-IsPlain s h.1)

skeleton-to_string : (n : ℕ) → skeleton (to_string n) ≡ []
skeleton-to_string n = skeleton_plain _ (digits-IsPlain _ (to_string-IsDigit n))

skeleton-format_number : (v : ℤ) → skeleton (format_number v) ≡ []
skeleton-format_number v =
    skeleton_plain _ (format_number-All IsPlain (λ c h. omega arith) (omega arith) (omega arith) v)

skeleton-if :
    (b : Bool) (x y : Bytes)
    → skeleton (if b then x else y) ≡ (if b then skeleton x else skeleton y)
skeleton-if true x y = refl
skeleton-if false x y = refl

ruleset blanks = (
  skeleton-if, skeleton-append, skeleton-nil, skeleton-escape_html, skeleton-to_string,
  skeleton-format_number,
)

skeleton-render_hubs :
    (hs ks : List Bytes)
    → length hs ≡ length ks
    → skeleton (render_hubs hs) ≡ skeleton (render_hubs ks)
unfolding render_hubs
skeleton-render_hubs [] [] e = refl
skeleton-render_hubs [] (k ∷ ks) e = absurd (omega arith)
skeleton-render_hubs (h ∷ hs) [] e = absurd (omega arith)
skeleton-render_hubs (h ∷ hs) (k ∷ ks) e = simp (blanks, skeleton-render_hubs hs ks (omega arith))

is_empty-length {ℓ κ} :
    {A : Type ℓ} {B : Type κ} (xs : List A) (ys : List B)
    → length xs ≡ length ys
    → is_empty xs ≡ is_empty ys
is_empty-length [] [] e = refl
is_empty-length [] (y ∷ ys) e = absurd (omega arith)
is_empty-length (x ∷ xs) [] e = absurd (omega arith)
is_empty-length (x ∷ xs) (y ∷ ys) e = refl

module _ {F : Type 0} (fl : Double F) (print1-IsPlain : (x : F) → All IsPlain (fl.print1 x)) where
  -- Two articles show the same parts.
  pub record SameShape (a b : DigestArticle F) : Type 0 where
    pub author : is_empty a.author ≡ is_empty b.author
    pub published_at : is_empty a.published_at ≡ is_empty b.published_at
    pub hubs : length a.hubs ≡ length b.hubs

  skeleton-print1 : (x : F) → skeleton (fl.print1 x) ≡ []
  skeleton-print1 x = skeleton_plain _ (print1-IsPlain x)

  -- Two articles that show the same parts have the same markup, whatever their texts and numbers.
  pub skeleton-render_article :
      (i j : ℕ) (a b : DigestArticle F)
      → SameShape a b
      → skeleton (render_article fl i a) ≡ skeleton (render_article fl j b)
  unfolding render_article
  skeleton-render_article i j a b s = simp (
    blanks,
    skeleton-print1,
    s.author,
    s.published_at,
    is_empty-length a.hubs b.hubs s.hubs,
    skeleton-render_hubs a.hubs b.hubs s.hubs,
  )

  abbrev pub SameShapes : List (DigestArticle F) → List (DigestArticle F) → Type 0
  SameShapes [] [] = Unit
  SameShapes [] (b ∷ bs) = ⊥
  SameShapes (a ∷ as') [] = ⊥
  SameShapes (a ∷ as') (b ∷ bs) = SameShape a b × SameShapes as' bs

  skeleton-render_articles :
      (i j : ℕ) (xs ys : List (DigestArticle F))
      → SameShapes xs ys
      → skeleton (render_articles fl i xs) ≡ skeleton (render_articles fl j ys)
  unfolding render_articles
  skeleton-render_articles i j [] [] s = refl
  skeleton-render_articles i j [] (y ∷ ys) s = absurd s
  skeleton-render_articles i j (x ∷ xs) [] s = absurd s
  skeleton-render_articles i j (x ∷ xs) (y ∷ ys) s = simp (
    skeleton-append,
    skeleton-render_article i j x y s.0,
    skeleton-render_articles (i + 1) (j + 1) xs ys s.1,
  )

  skeleton-render_archive :
      (xs ys : List (DigestReadyMessage F))
      → length xs ≡ length ys
      → skeleton (render_archive fl xs) ≡ skeleton (render_archive fl ys)
  unfolding render_archive
  skeleton-render_archive [] [] e = refl
  skeleton-render_archive [] (y ∷ ys) e = absurd (omega arith)
  skeleton-render_archive (x ∷ xs) [] e = absurd (omega arith)
  skeleton-render_archive (x ∷ xs) (y ∷ ys) e =
      simp (blanks, skeleton-render_archive xs ys (omega arith))

  -- Two pages whose latest digests show the same parts, over as many older digests, have the same
  -- markup: no text of an article, an author, a hub or a digest adds an angle bracket or a quote.
  pub skeleton-render_page :
      (d e : DigestReadyMessage F) (ds es : List (DigestReadyMessage F))
      → SameShapes d.articles e.articles
      → length ds ≡ length es
      → skeleton (render_page fl (d ∷ ds)) ≡ skeleton (render_page fl (e ∷ es))
  unfolding render_page render_body
  skeleton-render_page d e ds es s len = simp (
    blanks,
    skeleton-render_articles 1 1 d.articles e.articles s,
    is_empty-length ds es len,
    skeleton-render_archive ds es len,
  )
