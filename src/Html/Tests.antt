-- ===== src/Html/Tests.antt =====
-- The page on a digest with markup in its texts.
use habr_parser.Base.{
  Bytes, refl, ◌≡◌, ℕ, ℤ, pos, negsuc, [], ◌∷◌, ◌++◌, utf8, to_string, to_string-IsDigit, suc,
  length, All, All-append, arith, if◌then◌else◌,
}
use habr_parser.Double.Whole.{whole}
use habr_parser.Samples.{digest}
use habr_parser.Html.{
  escape_char, escape_html, group_digits, format_number, is_negative, magnitude, render_page,
}
use habr_parser.Html.Escape.{IsPlain, decode_html, decode_html-escape_html}
use habr_parser.Html.Grouped.{Grouped, format_number-Grouped}
use habr_parser.Html.Skeleton.{skeleton, digits-IsPlain, skeleton-render_page}

escaped : escape_html (utf8 "<a&'\">") ≡ utf8 "&lt;a&amp;&#39;&quot;&gt;"
unfolding escape_html escape_char utf8
escaped = refl

six_bytes : length (utf8 "<a&'\">") ≡ 6
unfolding utf8
six_bytes = refl

decode_html-escape_html_example : decode_html 6 (escape_html (utf8 "<a&'\">")) ≡ utf8 "<a&'\">"
decode_html-escape_html_example =
    decode_html-escape_html 6 (utf8 "<a&'\">") (omega (arith, six_bytes))

format_number-Grouped_example :
    (print : Bytes) × (format_number (negsuc 1234566)
      ≡ (if is_negative (negsuc 1234566) then b'-' ∷ [] else []) ++ print)
    × Grouped (magnitude (negsuc 1234566)) print
format_number-Grouped_example = format_number-Grouped (negsuc 1234566) (omega arith)

grouped_print : format_number (negsuc 1234566) ≡ utf8 "-1 234 567"
unfolding format_number group_digits to_string utf8
grouped_print = refl

number-IsPlain : (n : ℕ) → All IsPlain (to_string n ++ utf8 ".0")
unfolding utf8
number-IsPlain n =
    All-append IsPlain (to_string n) (utf8 ".0") (digits-IsPlain _ (to_string-IsDigit n))
      (omega arith, (omega arith, tt))

print1-IsPlain : (x : ℤ) → All IsPlain (whole.print1 x)
unfolding utf8
print1-IsPlain (pos n) = number-IsPlain n
print1-IsPlain (negsuc n) = (omega arith, number-IsPlain (suc n))

skeleton-render_page_example :
    skeleton (render_page whole (digest (utf8 "<script>") ∷ []))
    ≡ skeleton (render_page whole (digest (utf8 "t") ∷ []))
skeleton-render_page_example =
    skeleton-render_page whole print1-IsPlain (digest (utf8 "<script>")) (digest (utf8 "t")) [] []
      (record { author = refl; published_at = refl; hubs = refl }, tt) refl
