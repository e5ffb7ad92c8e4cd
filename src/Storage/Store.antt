-- ===== src/Storage/Store.antt =====
-- `ArticleStore` of services/storage/src/article_store.cpp. The clock's readings are arguments.
pub mod Atomic
pub mod Trace
use habr_parser.Base.{
  ℕ, ◌+◌, ◌*◌, ◌-◌, suc, List, [], ◌∷◌, map, Bool, true, false, ℤ, pos, negsuc, sub_ℕ, pos_part,
  neg_part, Option, none, some, Bytes, length, is_empty, ◌==◌, if◌then◌else◌,
}
use habr_parser.Json.{Json}
use habr_parser.Codec.{traverse, ◌>>=◌, strings_to_json, strings_from_json}
use habr_parser.Messages.{ParsedArticle, DigestArticle}
use habr_parser.Config.{ScoreWeights}
use habr_parser.Storage.Table.{Row}
use habr_parser.Storage.Engine.{Sqlite}

-- `BindText` passes `c_str()` with length -1: a text ends at its first NUL.
unfoldable pub c_str : Bytes → Bytes
c_str [] = []
c_str (c ∷ s) = let rest = c ∷ c_str s in if c == 0 then [] else rest

module _ {F : Type 0} (j : Json F) (db : Sqlite F) where
  -- A failure to read the JSON gives no hubs.
  abbrev hubs_or_none : Option (List Bytes) → List Bytes
  hubs_or_none none = []
  hubs_or_none (some hubs) = hubs

  unfoldable pub decode_hubs : Bytes → List Bytes
  decode_hubs encoded = hubs_or_none (j.parse encoded >>= strings_from_json j)

  module _ (now_iso : Bytes) (now_epoch : ℤ) (trace_id : Bytes) where
    abbrev pub row_of : ParsedArticle → Option Bytes → Option Row
    row_of a none = none
    row_of a (some hubs) = some (record {
      article_id = c_str a.article_id;
      url = c_str a.url;
      title = c_str a.title;
      author = c_str a.author;
      hubs = c_str hubs;
      published_at = c_str a.published_at;
      complexity = c_str a.complexity;
      reading_time = c_str a.reading_time;
      votes = a.votes;
      views = a.views;
      bookmarks = a.bookmarks;
      comments = a.comments;
      first_seen_at = c_str now_iso;
      first_seen_epoch = now_epoch;
      updated_at = c_str now_iso;
      updated_epoch = now_epoch;
      trace_id = c_str trace_id;
    })

    -- The bindings for one article; `none` where the dump of the hubs throws.
    unfoldable pub bind_row : ParsedArticle → Option Row
    bind_row a = row_of a (j.dump (strings_to_json j a.hubs))

    -- The next round, unless a step threw.
    abbrev pub loop_step : (db.Conn → db.Conn × Bool) → db.Conn × Bool → db.Conn × Bool
    loop_step rest (c, true) = rest c
    loop_step rest (c, false) = (c, false)

    abbrev pub loop_row : (db.Conn → db.Conn × Bool) → Option Row → db.Conn → db.Conn × Bool
    loop_row rest none c = (c, false)
    loop_row rest (some row) c = loop_step rest (db.step_upsert row c)

    -- The loop in the `try` block: the connection, and whether nothing was thrown.
    unfoldable pub upsert_loop : List ParsedArticle → db.Conn → db.Conn × Bool
    upsert_loop [] c = (c, true)
    upsert_loop (a ∷ articles) c = loop_row (upsert_loop articles) (bind_row a) c

    abbrev pub committed : ℕ → db.Conn × Bool → db.Conn × Option ℕ
    committed n (c, true) = (c, some n)
    committed n (c, false) = (c, none)

    -- COMMIT behind the loop; ROLLBACK, and the exception again, where something was thrown.
    abbrev pub end_batch : ℕ → db.Conn × Bool → db.Conn × Option ℕ
    end_batch n (c, true) = committed n (db.exec_commit c)
    end_batch n (c, false) = ((db.exec_rollback c).0, none)

    abbrev pub run_batch : List ParsedArticle → db.Conn × Bool → db.Conn × Option ℕ
    run_batch articles (c, false) = (c, none)
    run_batch articles (c, true) =
        end_batch (length articles)
          (if db.prepare_upsert c then upsert_loop articles c else (c, false))

    -- `UpsertBatch`; `none` where it throws.
    unfoldable pub upsert_batch : List ParsedArticle → db.Conn → db.Conn × Option ℕ
    upsert_batch articles c =
        if is_empty articles then (c, some 0) else run_batch articles (db.exec_begin c)

  -- What is read from the columns of a result row.
  unfoldable pub digest_article : Row × F → DigestArticle F
  digest_article (r, score) = record {
    article_id = r.article_id;
    url = r.url;
    title = r.title;
    author = r.author;
    published_at = r.published_at;
    hubs = decode_hubs r.hubs;
    votes = r.votes;
    views = r.views;
    bookmarks = r.bookmarks;
    comments = r.comments;
    score = score;
    source_trace_id = r.trace_id;
  }

  -- `now - period_hours * 3600`, in int64_t
  unfoldable pub cutoff_of : ℤ → ℕ → ℤ
  cutoff_of now_epoch period_hours =
      sub_ℕ (pos_part now_epoch) (neg_part now_epoch + period_hours * 3600)

  abbrev pub articles_of : Option (List (Row × F)) → Option (List (DigestArticle F))
  articles_of none = none
  articles_of (some found) = some (map digest_article found)

  -- `TopArticles`; `none` where a statement throws.
  unfoldable pub top_articles :
      ℤ → ℕ → ℕ → ScoreWeights F → db.Conn → Option (List (DigestArticle F))
  top_articles now_epoch period_hours limit weights c =
      articles_of (db.query_top weights (cutoff_of now_epoch period_hours) limit c)
