-- ===== src/Storage/Service.antt =====
-- `StorageService` of services/storage/src/storage_service.cpp. The clock's readings, the new trace
-- id and the answer of the AMQP library to a publish are arguments.
pub mod Delivery
pub mod Publish
use habr_parser.Base.{
  ℕ, List, [], ◌∷◌, Bool, true, false, ℤ, Option, none, some, Bytes, is_empty, if◌then◌else◌,
}
use habr_parser.Json.{Json}
use habr_parser.Messages.{
  ParsedArticlesMessage, DigestArticle, DigestReadyMessage, parsed_articles_queue,
  digest_ready_exchange,
}
use habr_parser.Codec.{decode_parsed, encode_digest}
use habr_parser.Config.{StorageConfig}
use habr_parser.Amqp.{
  Service, Ack, declare_queue, declare_fanout_exchange, consume, start_timer, publish_to_exchange,
}
use habr_parser.Storage.Engine.{Sqlite}
use habr_parser.Storage.Store.{upsert_batch, top_articles}

module _ {F : Type 0} (j : Json F) (db : Sqlite F) where
  -- The log line behind the batch counts the articles, which may throw too.
  abbrev pub counted : Option ℕ → Ack
  counted none = Ack.requeue
  counted (some total) = Ack.ack

  abbrev pub stored : db.Conn × Option ℕ → db.Conn × Option Ack
  stored (c, none) = (c, some Ack.requeue)
  stored (c, some n) = (c, some (counted (db.query_count c)))

  abbrev pub store_message :
      Bytes → ℤ → Option ParsedArticlesMessage → db.Conn → db.Conn × Option Ack
  store_message now_iso now_epoch none c = (c, some Ack.reject)
  store_message now_iso now_epoch (some m) c =
      stored (upsert_batch j db now_iso now_epoch m.trace_id m.articles c)

  -- `HandleParsedArticles`
  unfoldable pub handle_parsed_articles : Bytes → ℤ → Bytes → db.Conn → db.Conn × Option Ack
  handle_parsed_articles now_iso now_epoch payload c =
      store_message now_iso now_epoch (decode_parsed j payload) c

module _ {F : Type 0} (j : Json F) (db : Sqlite F) (config : StorageConfig F) where
  unfoldable pub on_channel_ready : Service → Service
  on_channel_ready s = start_timer config.digest_interval_seconds false (
      consume parsed_articles_queue config.prefetch
        (declare_fanout_exchange digest_ready_exchange (declare_queue parsed_articles_queue s)))

  unfoldable pub digest_message : Bytes → Bytes → List (DigestArticle F) → DigestReadyMessage F
  digest_message now_iso trace_id top = record {
    digest_id = now_iso;
    generated_at = now_iso;
    trace_id = trace_id;
    period_hours = config.digest_period_hours;
    articles = top;
  }

  module _ (accepted : Bool) (now_iso : Bytes) (now_epoch : ℤ) (trace_id : Bytes) where
    -- `none`: the dump throws, out of the timer's callback.
    abbrev pub send_digest : Option Bytes → Service → Option Service
    send_digest none s = none
    send_digest (some out) s = some (publish_to_exchange accepted digest_ready_exchange out s).0

    abbrev pub publish_top : Option (List (DigestArticle F)) → Service → Option Service
    publish_top none s = some s
    publish_top (some top) s =
        if is_empty top
        then some s
        else send_digest (encode_digest j (digest_message now_iso trace_id top)) s

    -- `PublishDigest`, which is all that `OnTick` does.
    unfoldable pub publish_digest : db.Conn → Service → Option Service
    publish_digest c s =
        publish_top
          (top_articles j db now_epoch config.digest_period_hours config.digest_top_n config.weights
            c)
          s
