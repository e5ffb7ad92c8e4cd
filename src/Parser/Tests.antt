-- ===== src/Parser/Tests.antt =====
-- The parser on a page of lines.
use habr_parser.Base.{some, ◌≡◌, pos, ◌++◌, Bytes, utf8, All, arith, reverse, ◌*◌}
use habr_parser.Double.Whole.{whole, whole-Exact}
use habr_parser.Html.{format_number}
use habr_parser.Parser.Trim.Loops.{trim_loops}
use habr_parser.Parser.Trim.Loops.Back.{trim_loops-trim}
use habr_parser.Parser.Trim.{trim, Blanks, Starts, trim_lem, trim-trim}
use habr_parser.Parser.Count.{parse_count, cyrillic_k, suffix_text, parse_count-format_number}
use habr_parser.Parser.Page.{parse_page}
use habr_parser.Parser.Page.Lines.{lines}
use habr_parser.Parser.Page.Articles.{IsClean, parse_page-IsClean}

trim_lem_example :
    (pre post : Bytes) × (utf8 " a " ≡ pre ++ (trim (utf8 " a ") ++ post))
    × Blanks 0xc2 0xa0 pre
    × Blanks 0xc2 0xa0 post
    × Starts 0xc2 0xa0 (trim (utf8 " a "))
    × Starts 0xa0 0xc2 (reverse (trim (utf8 " a ")))
trim_lem_example = trim_lem (utf8 " a ")

trim_loops-trim_example : trim_loops (utf8 " a ") ≡ some (trim (utf8 " a "))
trim_loops-trim_example = trim_loops-trim (utf8 " a ")

trim-trim_example : trim (trim (utf8 " a ")) ≡ trim (utf8 " a ")
trim-trim_example = trim-trim (utf8 " a ")

parse_count-format_number_example :
    parse_count whole (format_number (pos 1200) ++ suffix_text cyrillic_k) ≡ pos (1200 * 1000)
parse_count-format_number_example =
    parse_count-format_number whole whole-Exact 1200 cyrillic_k (omega arith)

parse_page-IsClean_example :
    All
      (IsClean (utf8 "https://habr.com"))
      (parse_page lines whole (utf8 "https://habr.com") (utf8 "one\n\n two")).articles
parse_page-IsClean_example =
    parse_page-IsClean lines whole (utf8 "https://habr.com") (utf8 "one\n\n two")
