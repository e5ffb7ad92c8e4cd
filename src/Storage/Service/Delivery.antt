-- ===== src/Storage/Service/Delivery.antt =====
-- What becomes of a message of parsed articles.
use habr_parser.Base.{
  ℕ, ◌≡◌, ◌≢◌, refl, ap, [], ◌⊎◌, inl, inr, ℤ, Option, none, some, Bytes, length, List-cases,
}
use habr_parser.Double.{Double}
use habr_parser.Json.{Json}
use habr_parser.Messages.{ParsedArticlesMessage}
use habr_parser.Codec.{decode_parsed}
use habr_parser.Amqp.{Ack}
use habr_parser.Storage.Engine.{Sqlite, SqliteLaws}
use habr_parser.Storage.Store.{upsert_batch}
use habr_parser.Storage.Store.Atomic.{Stored, upsert_batch-Atomic, upsert_batch_nil}
use habr_parser.Storage.Service.{counted, stored, store_message, handle_parsed_articles}

module _ {F : Type 0} (j : Json F) (db : Sqlite F) (now_iso : Bytes) (now_epoch : ℤ) where
  -- The decisions, each with what it says of the table.
  pub data Outcome (payload : Bytes) (c c' : db.Conn) : Option Ack → Type 0 where
    malformed : decode_parsed j payload ≡ none → c' ≡ c → Outcome payload c c' (some Ack.reject)
    -- all articles are committed
    saved :
        (m : ParsedArticlesMessage)
        → decode_parsed j payload ≡ some m
        → m.articles ≢ []
        → Stored j db now_iso now_epoch m.trace_id m.articles (db.view c) (db.view c')
        → Outcome payload c c' (some Ack.ack)
    empty :
        (m : ParsedArticlesMessage)
        → decode_parsed j payload ≡ some m
        → m.articles ≡ []
        → c' ≡ c
        → Outcome payload c c' (some Ack.ack)
    -- nothing is committed
    failed :
        (m : ParsedArticlesMessage)
        → decode_parsed j payload ≡ some m
        → (db.view c').rows ≡ (db.view c).rows
        → Outcome payload c c' (some Ack.requeue)
    -- as for `ack`, but the count for the log failed
    uncounted :
        db.query_count c' ≡ none
        → Outcome payload c c' (some Ack.ack)
        → Outcome payload c c' (some Ack.requeue)

module _ {F : Type 0} (fl : Double F) (j : Json F) (db : Sqlite F) (laws : SqliteLaws fl db)
    (now_iso : Bytes) (now_epoch : ℤ) where
  counted-Outcome :
      (payload : Bytes) (c c' : db.Conn) (n : Option ℕ)
      → db.query_count c' ≡ n
      → Outcome j db now_iso now_epoch payload c c' (some Ack.ack)
      → Outcome j db now_iso now_epoch payload c c' (some (counted j db n))
  counted-Outcome payload c c' none e h = uncounted e h
  counted-Outcome payload c c' (some total) e h = h

  stored-Outcome :
      (payload : Bytes) (m : ParsedArticlesMessage) (c : db.Conn) (o : db.Conn × Option ℕ)
      → decode_parsed j payload ≡ some m
      → (o.1 ≡ none → (db.view o.0).rows ≡ (db.view c).rows)
      → ((n : ℕ) → o.1 ≡ some n → Outcome j db now_iso now_epoch payload c o.0 (some Ack.ack))
      → let r = stored j db o in Outcome j db now_iso now_epoch payload c r.0 r.1
  stored-Outcome payload m c (c', none) d same done = failed m d (same refl)
  stored-Outcome payload m c (c', some n) d same done =
      counted-Outcome payload c c' _ refl (done n refl)

  store_message-Outcome :
      (payload : Bytes) (c : db.Conn) (decoded : Option ParsedArticlesMessage)
      → decode_parsed j payload ≡ decoded
      → let r = store_message j db now_iso now_epoch decoded c in
        Outcome j db now_iso now_epoch payload c r.0 r.1
  store_message-Outcome payload c none d = malformed d refl
  store_message-Outcome payload c (some m) d = elim (List-cases m.articles) [
    | inl none_found ↦
        stored-Outcome payload m c _ d (λ e. absurd (cc (e, nothing none_found)))
          (λ n e. empty m d none_found (ap (λ (r : db.Conn × Option ℕ). r.0) (nothing none_found)))
    | inr ne ↦
        stored-Outcome payload m c _ d
          (λ e. elim (batch ne) [ inl (_, same) ↦ same | inr (e', _) ↦ absurd (cc (e, e')) ])
          (λ n e. elim (batch ne) [
            | inl (e', _) ↦ absurd (cc (e, e'))
            | inr (_, s) ↦ saved m d ne s
          ])
  ]
    where
      nothing :
          m.articles ≡ []
          → upsert_batch j db now_iso now_epoch m.trace_id m.articles c ≡ (c, some 0)
      nothing = upsert_batch_nil fl j db laws now_iso now_epoch m.trace_id m.articles c

      batch :
          m.articles ≢ []
          → let r = upsert_batch j db now_iso now_epoch m.trace_id m.articles c in
            ((r.1 ≡ none) × ((db.view r.0).rows ≡ (db.view c).rows))
            ⊎ ((r.1 ≡ some (length m.articles))
                × Stored j db now_iso now_epoch m.trace_id m.articles (db.view c) (db.view r.0))
      batch = upsert_batch-Atomic fl j db laws now_iso now_epoch m.trace_id m.articles c

  -- Every message is decided, never by an exception: dropped exactly when malformed; acknowledged
  -- only when all its articles are committed, or it has none; and queued again when nothing was
  -- committed, or when only the count for the log failed.
  pub handle_parsed_articles-Outcome :
      (payload : Bytes) (c : db.Conn)
      → let r = handle_parsed_articles j db now_iso now_epoch payload c in
        Outcome j db now_iso now_epoch payload c r.0 r.1
  unfolding handle_parsed_articles
  handle_parsed_articles-Outcome payload c =
      store_message-Outcome payload c (decode_parsed j payload) refl
