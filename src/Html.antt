-- ===== src/Html.antt =====
-- The page of the web service (services/web/src/html_view.cpp): escaping, number formatting and the
-- rendering of articles and digests. A stream is the bytes written to it.
pub mod Escape
pub mod Number
pub mod Grouped
pub mod Skeleton
mod Tests
use habr_parser.Base.{
  ℕ, suc, ◌+◌, ◌%◌, List, [], ◌∷◌, ◌++◌, reverse, Bool, true, false, not, ◌&&◌, ℤ, pos, negsuc,
  Bytes, utf8, to_string, length, is_empty, written, ltb, ◌==◌, if◌then◌else◌,
}
use habr_parser.Double.{Double}
use habr_parser.Style.{style}
use habr_parser.Messages.{DigestArticle, DigestReadyMessage}

-- What one round of the loop of `EscapeHtml` appends.
pub escape_char : ℕ → Bytes
escape_char ch =
    if ch == b'&'
    then utf8 "&amp;"
    else if ch == b'<'
    then utf8 "&lt;"
    else if ch == b'>'
    then utf8 "&gt;"
    else if ch == b'"'
    then utf8 "&quot;"
    else if ch == b'\''
    then utf8 "&#39;"
    else ch ∷ []

pub escape_html : Bytes → Bytes
unfolding escape_char
escape_html [] = []
escape_html (ch ∷ value) = escape_char ch ++ escape_html value

-- The loop of `FormatNumber` over the reversed digits: what it appends to `out` from `seen` on.
pub group_digits : ℕ → Bytes → Bytes
group_digits seen [] = []
group_digits seen (d ∷ ds) =
    let rest = d ∷ group_digits (seen + 1) ds in
    if ltb 0 seen && (seen % 3 == 0) then b' ' ∷ rest else rest

abbrev pub magnitude : ℤ → ℕ
magnitude (pos n) = n
magnitude (negsuc n) = suc n

abbrev pub is_negative : ℤ → Bool
is_negative (pos n) = false
is_negative (negsuc n) = true

-- `value < 0 ? -value : value` stands for the magnitude, which holds but for INT64_MIN, where the
-- negation overflows.
pub format_number : ℤ → Bytes
unfolding group_digits
format_number value =
    let out = group_digits 0 (reverse (to_string (magnitude value))) in
    reverse (if is_negative value then out ++ b'-' ∷ [] else out)

-- One `<span class="hub">` for each hub.
pub render_hubs : List Bytes → Bytes
render_hubs [] = []
render_hubs (hub ∷ hubs) =
    written (utf8 "<span class=\"hub\">" ∷ escape_html hub ∷ utf8 "</span>" ∷ [])
    ++ render_hubs hubs

module _ {F : Type 0} (fl : Double F) where
  pub render_byline : DigestArticle F → Bytes
  render_byline article =
      if is_empty article.author
      then []
      else written (
          utf8 "<div class=\"byline\">"
          ∷ escape_html article.author
          ∷ (if is_empty article.published_at
              then []
              else utf8 " · " ++ escape_html article.published_at)
          ∷ utf8 "</div>"
          ∷ [])

  pub render_article : ℕ → DigestArticle F → Bytes
  unfolding render_byline render_hubs
  render_article rank article = written (
      utf8 "<div class=\"item\">"
      ∷ utf8 "<div class=\"rank\">"
      ∷ to_string rank
      ∷ utf8 "</div>"
      ∷ utf8 "<div class=\"body\">"
      ∷ utf8 "<div class=\"title\"><a href=\""
      ∷ escape_html article.url
      ∷ utf8 "\" target=\"_blank\" rel=\"noopener noreferrer\">"
      ∷ escape_html article.title
      ∷ utf8 "</a></div>"
      ∷ render_byline article
      ∷ (if is_empty article.hubs
          then []
          else written
              (utf8 "<div class=\"hubs\">" ∷ render_hubs article.hubs ∷ utf8 "</div>" ∷ []))
      ∷ utf8 "<div class=\"stats\">"
      ∷ utf8 "<span>рейтинг <b>"
      ∷ format_number article.votes
      ∷ utf8 "</b></span>"
      ∷ utf8 "<span>просмотры <b>"
      ∷ format_number article.views
      ∷ utf8 "</b></span>"
      ∷ utf8 "<span>закладки <b>"
      ∷ format_number article.bookmarks
      ∷ utf8 "</b></span>"
      ∷ utf8 "<span>комментарии <b>"
      ∷ format_number article.comments
      ∷ utf8 "</b></span>"
      ∷ utf8 "<span>score <b>"
      ∷ fl.print1 article.score
      ∷ utf8 "</b></span>"
      ∷ utf8 "</div>"
      ∷ utf8 "</div></div>"
      ∷ [])

  -- The loop over the articles of the latest digest.
  pub render_articles : ℕ → List (DigestArticle F) → Bytes
  render_articles rank [] = []
  render_articles rank (article ∷ articles) =
      render_article rank article ++ render_articles (rank + 1) articles

  -- The loop over the digests behind the latest one.
  pub render_archive : List (DigestReadyMessage F) → Bytes
  render_archive [] = []
  render_archive (digest ∷ digests) =
      written (
        utf8 "<li>"
        ∷ escape_html digest.generated_at
        ∷ utf8 " — "
        ∷ to_string (length digest.articles)
        ∷ utf8 " статей</li>"
        ∷ [])
      ++ render_archive digests

  pub render_body : List (DigestReadyMessage F) → Bytes
  unfolding render_articles render_archive
  render_body [] =
      utf8 "<div class=\"meta\">Ожидаем первый дайджест от storage.</div></header>"
      ++ utf8 "<div class=\"empty\">Пока пусто.<br>Дайджест появится здесь, как только storage "
      ++ utf8 "опубликует его в <code>digest_ready</code>.</div>"
  render_body (latest ∷ digests) = written (
      utf8 "<div class=\"meta\">Топ "
      ∷ to_string (length latest.articles)
      ∷ utf8 " за последние "
      ∷ to_string latest.period_hours
      ∷ utf8 " ч · собран "
      ∷ escape_html latest.generated_at
      ∷ utf8 " · trace_id <code>"
      ∷ escape_html latest.trace_id
      ∷ utf8 "</code></div></header>"
      ∷ render_articles 1 latest.articles
      ∷ (if is_empty digests
          then []
          else written (
              utf8 "<div class=\"archive\"><h2>Предыдущие дайджесты</h2><ul>"
              ∷ render_archive digests
              ∷ utf8 "</ul></div>"
              ∷ []))
      ∷ [])

  pub render_page : List (DigestReadyMessage F) → Bytes
  unfolding render_body
  render_page digests = written (
      utf8 "<!doctype html><html lang=\"ru\"><head><meta charset=\"utf-8\">"
      ∷ utf8 "<meta name=\"viewport\" content=\"width=device-width, initial-scale=1\">"
      ∷ utf8 "<meta http-equiv=\"refresh\" content=\"30\">"
      ∷ utf8 "<title>Habr digest</title><style>"
      ∷ style
      ∷ utf8 "</style></head><body><div class=\"wrap\">"
      ∷ utf8 "<header><h1>Habr digest</h1>"
      ∷ render_body digests
      ∷ utf8 "</div></body></html>"
      ∷ [])
