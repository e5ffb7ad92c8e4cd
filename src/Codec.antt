-- ===== src/Codec.antt =====
-- The conversions that NLOHMANN_DEFINE_TYPE_INTRUSIVE generates for the structs of
-- shared/cpp/messaging/include/messaging/messages.hpp from the member lists written there: an object
-- with these keys, and a strict reader that fails on a missing or ill-typed member.
pub mod RoundTrip
pub mod Finite
mod Tests
use habr_parser.Base.{ℕ, ℤ, pos, List, [], ◌∷◌, map, Option, none, some, Bytes, utf8}
use Prim.Native.String.{String}
use habr_parser.Json.{Json}
use habr_parser.Messages.{
  RawArticlesMessage, ParsedArticle, ParsedArticlesMessage, DigestArticle, DigestReadyMessage,
}

infixl 5 ◌>>=◌
abbrev pub ◌>>=◌ {ℓ κ} : {A : Type ℓ} {B : Type κ} → Option A → (A → Option B) → Option B
none >>= f = none
some a >>= f = f a

-- The results of a reader over all elements, or a failure.
abbrev pub traverse {ℓ κ} : {A : Type ℓ} {B : Type κ} → (A → Option B) → List A → Option (List B)
traverse f [] = some []
traverse f (x ∷ xs) = let rest = traverse f xs in do y ← f x; ys ← rest; some (y ∷ ys)

module _ {F : Type 0} (j : Json F) where
  abbrev pub strings_to_json : List Bytes → j.Value
  strings_to_json texts = j.arr (map j.str texts)

  abbrev pub strings_from_json : j.Value → Option (List Bytes)
  strings_from_json v = do vs ← j.get_arr v; traverse j.get_str vs

  abbrev str_at : String → j.Value → Option Bytes
  str_at key v = j.at (utf8 key) v >>= j.get_str

  abbrev int_at : String → j.Value → Option ℤ
  int_at key v = j.at (utf8 key) v >>= j.get_int

  unfoldable pub raw_to_json : RawArticlesMessage → j.Value
  raw_to_json m = j.obj (
      (utf8 "fetch_id", j.str m.fetch_id)
      ∷ (utf8 "source_url", j.str m.source_url)
      ∷ (utf8 "raw_html", j.str m.raw_html)
      ∷ (utf8 "fetched_at", j.str m.fetched_at)
      ∷ (utf8 "trace_id", j.str m.trace_id)
      ∷ [])

  unfoldable pub raw_from_json : j.Value → Option RawArticlesMessage
  raw_from_json v = do
    fetch_id ← str_at "fetch_id" v
    source_url ← str_at "source_url" v
    raw_html ← str_at "raw_html" v
    fetched_at ← str_at "fetched_at" v
    trace_id ← str_at "trace_id" v
    some (record {
      fetch_id = fetch_id;
      source_url = source_url;
      raw_html = raw_html;
      fetched_at = fetched_at;
      trace_id = trace_id;
    })

  unfoldable pub article_to_json : ParsedArticle → j.Value
  article_to_json m = j.obj (
      (utf8 "article_id", j.str m.article_id)
      ∷ (utf8 "url", j.str m.url)
      ∷ (utf8 "title", j.str m.title)
      ∷ (utf8 "author", j.str m.author)
      ∷ (utf8 "published_at", j.str m.published_at)
      ∷ (utf8 "hubs", strings_to_json m.hubs)
      ∷ (utf8 "complexity", j.str m.complexity)
      ∷ (utf8 "reading_time", j.str m.reading_time)
      ∷ (utf8 "votes", j.int m.votes)
      ∷ (utf8 "views", j.int m.views)
      ∷ (utf8 "bookmarks", j.int m.bookmarks)
      ∷ (utf8 "comments", j.int m.comments)
      ∷ [])

  unfoldable pub article_from_json : j.Value → Option ParsedArticle
  article_from_json v = do
    article_id ← str_at "article_id" v
    url ← str_at "url" v
    title ← str_at "title" v
    author ← str_at "author" v
    published_at ← str_at "published_at" v
    hubs ← j.at (utf8 "hubs") v >>= strings_from_json
    complexity ← str_at "complexity" v
    reading_time ← str_at "reading_time" v
    votes ← int_at "votes" v
    views ← int_at "views" v
    bookmarks ← int_at "bookmarks" v
    comments ← int_at "comments" v
    some (record {
      article_id = article_id;
      url = url;
      title = title;
      author = author;
      published_at = published_at;
      hubs = hubs;
      complexity = complexity;
      reading_time = reading_time;
      votes = votes;
      views = views;
      bookmarks = bookmarks;
      comments = comments;
    })

  unfoldable pub parsed_to_json : ParsedArticlesMessage → j.Value
  parsed_to_json m = j.obj (
      (utf8 "fetch_id", j.str m.fetch_id)
      ∷ (utf8 "source_url", j.str m.source_url)
      ∷ (utf8 "parsed_at", j.str m.parsed_at)
      ∷ (utf8 "trace_id", j.str m.trace_id)
      ∷ (utf8 "articles", j.arr (map article_to_json m.articles))
      ∷ [])

  unfoldable pub parsed_from_json : j.Value → Option ParsedArticlesMessage
  parsed_from_json v = do
    fetch_id ← str_at "fetch_id" v
    source_url ← str_at "source_url" v
    parsed_at ← str_at "parsed_at" v
    trace_id ← str_at "trace_id" v
    articles ← j.at (utf8 "articles") v >>= λ a. j.get_arr a >>= traverse article_from_json
    some (record {
      fetch_id = fetch_id;
      source_url = source_url;
      parsed_at = parsed_at;
      trace_id = trace_id;
      articles = articles;
    })

  unfoldable pub digest_article_to_json : DigestArticle F → j.Value
  digest_article_to_json m = j.obj (
      (utf8 "article_id", j.str m.article_id)
      ∷ (utf8 "url", j.str m.url)
      ∷ (utf8 "title", j.str m.title)
      ∷ (utf8 "author", j.str m.author)
      ∷ (utf8 "published_at", j.str m.published_at)
      ∷ (utf8 "hubs", strings_to_json m.hubs)
      ∷ (utf8 "votes", j.int m.votes)
      ∷ (utf8 "views", j.int m.views)
      ∷ (utf8 "bookmarks", j.int m.bookmarks)
      ∷ (utf8 "comments", j.int m.comments)
      ∷ (utf8 "score", j.real m.score)
      ∷ (utf8 "source_trace_id", j.str m.source_trace_id)
      ∷ [])

  pub digest_article_from_json : j.Value → Option (DigestArticle F)
  digest_article_from_json v = do
    article_id ← str_at "article_id" v
    url ← str_at "url" v
    title ← str_at "title" v
    author ← str_at "author" v
    published_at ← str_at "published_at" v
    hubs ← j.at (utf8 "hubs") v >>= strings_from_json
    votes ← int_at "votes" v
    views ← int_at "views" v
    bookmarks ← int_at "bookmarks" v
    comments ← int_at "comments" v
    score ← j.at (utf8 "score") v >>= j.get_real
    source_trace_id ← str_at "source_trace_id" v
    some (record {
      article_id = article_id;
      url = url;
      title = title;
      author = author;
      published_at = published_at;
      hubs = hubs;
      votes = votes;
      views = views;
      bookmarks = bookmarks;
      comments = comments;
      score = score;
      source_trace_id = source_trace_id;
    })

  unfoldable pub digest_to_json : DigestReadyMessage F → j.Value
  digest_to_json m = j.obj (
      (utf8 "digest_id", j.str m.digest_id)
      ∷ (utf8 "generated_at", j.str m.generated_at)
      ∷ (utf8 "trace_id", j.str m.trace_id)
      ∷ (utf8 "period_hours", j.int (pos m.period_hours))
      ∷ (utf8 "articles", j.arr (map digest_article_to_json m.articles))
      ∷ [])

  pub digest_from_json : j.Value → Option (DigestReadyMessage F)
  digest_from_json v = do
    digest_id ← str_at "digest_id" v
    generated_at ← str_at "generated_at" v
    trace_id ← str_at "trace_id" v
    period_hours ← j.at (utf8 "period_hours") v >>= j.get_uint
    articles ← j.at (utf8 "articles") v >>= λ a. j.get_arr a >>= traverse digest_article_from_json
    some (record {
      digest_id = digest_id;
      generated_at = generated_at;
      trace_id = trace_id;
      period_hours = period_hours;
      articles = articles;
    })

  -- `nlohmann::json(message).dump()` and `json::parse(payload).get<Message>()`
  abbrev pub encode_raw : RawArticlesMessage → Option Bytes
  encode_raw m = j.dump (raw_to_json m)

  abbrev pub decode_raw : Bytes → Option RawArticlesMessage
  decode_raw payload = j.parse payload >>= raw_from_json

  abbrev pub encode_parsed : ParsedArticlesMessage → Option Bytes
  encode_parsed m = j.dump (parsed_to_json m)

  abbrev pub decode_parsed : Bytes → Option ParsedArticlesMessage
  decode_parsed payload = j.parse payload >>= parsed_from_json

  abbrev pub encode_digest : DigestReadyMessage F → Option Bytes
  encode_digest m = j.dump (digest_to_json m)

  abbrev pub decode_digest : Bytes → Option (DigestReadyMessage F)
  decode_digest payload = j.parse payload >>= digest_from_json
