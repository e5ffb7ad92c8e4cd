-- ===== src/Messages.antt =====
-- The wire contracts of the pipeline (shared/cpp/messaging/include/messaging/messages.hpp): queue
-- names and the structs that travel as JSON. `F` stands for the values of `double`.
use habr_parser.Base.{ℕ, ℤ, List, Bytes, utf8}

abbrev pub raw_articles_queue : Bytes
raw_articles_queue = utf8 "raw_articles"

abbrev pub parsed_articles_queue : Bytes
parsed_articles_queue = utf8 "parsed_articles"

abbrev pub digest_ready_exchange : Bytes
digest_ready_exchange = utf8 "digest_ready"

abbrev pub digest_notifier_queue : Bytes
digest_notifier_queue = utf8 "digest_ready.notifier"

abbrev pub digest_web_queue : Bytes
digest_web_queue = utf8 "digest_ready.web"

pub record RawArticlesMessage : Type 0 where
  pub fetch_id : Bytes
  pub source_url : Bytes
  pub raw_html : Bytes
  pub fetched_at : Bytes
  pub trace_id : Bytes

pub record ParsedArticle : Type 0 where
  pub article_id : Bytes
  pub url : Bytes
  pub title : Bytes
  pub author : Bytes
  pub published_at : Bytes
  pub hubs : List Bytes
  pub complexity : Bytes
  pub reading_time : Bytes
  pub votes : ℤ
  pub views : ℤ
  pub bookmarks : ℤ
  pub comments : ℤ

pub record ParsedArticlesMessage : Type 0 where
  pub fetch_id : Bytes
  pub source_url : Bytes
  pub parsed_at : Bytes
  pub trace_id : Bytes
  pub articles : List ParsedArticle

pub record DigestArticle (F : Type 0) : Type 0 where
  pub article_id : Bytes
  pub url : Bytes
  pub title : Bytes
  pub author : Bytes
  pub published_at : Bytes
  pub hubs : List Bytes
  pub votes : ℤ
  pub views : ℤ
  pub bookmarks : ℤ
  pub comments : ℤ
  pub score : F
  pub source_trace_id : Bytes

pub record DigestReadyMessage (F : Type 0) : Type 0 where
  pub digest_id : Bytes
  pub generated_at : Bytes
  pub trace_id : Bytes
  pub period_hours : ℕ
  pub articles : List (DigestArticle F)
