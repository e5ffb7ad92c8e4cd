-- ===== src/Storage/Service/Publish.antt =====
-- The digest that a tick publishes.
use mathlib.Core.Path.{subst}
use mathlib.Core.Option.{some-injective}
use habr_parser.Base.{
  ◌^◌, ◌<◌, ◌≡◌, refl, sym, ap, List, [], ◌∷◌, ◌++◌, map, Bool, ◌⊎◌, inl, inr, ℤ, Option, none,
  some, false, arith, Bytes, is_empty, is_empty→nil, if_split, Bool-cases, ◌&&◌, All,
}
use habr_parser.Double.{Double}
use habr_parser.Json.{Json, JsonLaws}
use habr_parser.Messages.{DigestArticle, DigestReadyMessage, digest_ready_exchange}
use habr_parser.Codec.{decode_digest, encode_digest}
use habr_parser.Codec.RoundTrip.{decode_digest-encode_digest}
use habr_parser.Codec.Finite.{FiniteScore, digest_to_json-Finite}
use habr_parser.Config.{StorageConfig}
use habr_parser.Amqp.{Service, basic_publish, publish_to_exchange}
use habr_parser.Storage.Table.{Row, score, select_top}
use habr_parser.Storage.Engine.{Sqlite, SqliteLaws, visible}
use habr_parser.Storage.Store.{digest_article, cutoff_of, articles_of, top_articles}
use habr_parser.Storage.Service.{digest_message, send_digest, publish_top, publish_digest}

module _ {F : Type 0} (fl : Double F) (j : Json F) (db : Sqlite F) (config : StorageConfig F)
    (now_iso : Bytes) (now_epoch : ℤ) (trace_id : Bytes) where
  abbrev pub top_query : db.Conn → Option (List (Row × F))
  top_query =
      db.query_top config.weights (cutoff_of j db now_epoch config.digest_period_hours)
        config.digest_top_n

  -- The articles of a digest: the rows of the query over the visible table, with their scores.
  abbrev pub ranked : db.Conn → List (DigestArticle F)
  ranked c = map (digest_article j db) (
      map (λ r. (r, score fl config.weights r))
        (select_top fl config.weights (cutoff_of j db now_epoch config.digest_period_hours)
          config.digest_top_n (visible (db.view c))))

  -- Why a tick sends nothing: the query failed, found no article, or the channel is not usable.
  abbrev pub Silent : db.Conn → List (DigestArticle F) → Service → Type 0
  Silent c top s = (top_query c ≡ none) ⊎ (top ≡ []) ⊎ ((s.channel && s.channel_ready) ≡ false)

  -- A digest of these articles, with the ids of the tick.
  pub record IsDigest (top : List (DigestArticle F)) (m : DigestReadyMessage F) : Type 0 where
    pub digest_id : m.digest_id ≡ now_iso
    pub generated_at : m.generated_at ≡ now_iso
    pub trace_id_kept : m.trace_id ≡ trace_id
    pub period_hours : m.period_hours ≡ config.digest_period_hours
    pub articles : m.articles ≡ top

  digest_message-IsDigest :
      (top : List (DigestArticle F))
      → IsDigest top (digest_message j db config now_iso trace_id top)
  unfolding digest_message
  digest_message-IsDigest top = record {
    digest_id = refl;
    generated_at = refl;
    trace_id_kept = refl;
    period_hours = refl;
    articles = refl;
  }

  -- Nothing is sent for such a reason, or one digest of these articles.
  abbrev pub Sent : db.Conn → List (DigestArticle F) → Service → Service → Type 0
  Sent c top s s' =
      ((s'.sent ≡ s.sent) × Silent c top s)
      ⊎ ((out : Bytes) × (s'.sent ≡ s.sent ++ basic_publish digest_ready_exchange [] out ∷ [])
          × (m : DigestReadyMessage F) × (decode_digest j out ≡ some m)
          × IsDigest top m)

module _ {F : Type 0} (fl : Double F) (j : Json F) (laws : JsonLaws j) (db : Sqlite F)
    (db_laws : SqliteLaws fl db) (config : StorageConfig F)
    (fits : config.digest_period_hours < 2 ^ 32) (accepted : Bool) (now_iso : Bytes) (now_epoch : ℤ)
    (trace_id : Bytes) where
  send_digest-Sent :
      (c : db.Conn) (top : List (DigestArticle F)) (s : Service) (o : Option Bytes) {s' : Service}
      → All (FiniteScore j laws) top
      → encode_digest j (digest_message j db config now_iso trace_id top) ≡ o
      → send_digest j db config accepted now_iso now_epoch trace_id o s ≡ some s'
      → Sent fl j db config now_iso now_epoch trace_id c top s s'
  unfolding publish_to_exchange digest_message
  send_digest-Sent c top s none finite e h = cc
  send_digest-Sent c top s (some out) {s'} finite e h =
      elim (Bool-cases (s.channel && s.channel_ready)) [
        | inl on ↦ inr (
          out,
          ground arith,
          _,
          decode_digest-encode_digest j laws _ fits (digest_to_json-Finite j laws _ finite) e,
          digest_message-IsDigest fl j db config now_iso now_epoch trace_id top,
        )
        | inr off ↦ inl (ground arith, inr (inr off))
      ]

  publish_top-Sent :
      (c : db.Conn) (s : Service) (o : Option (List (Row × F))) {s' : Service}
      → All (FiniteScore j laws) (ranked fl j db config now_iso now_epoch trace_id c)
      → top_query fl j db config now_iso now_epoch trace_id c ≡ o
      → publish_top j db config accepted now_iso now_epoch trace_id (articles_of j db o) s ≡ some s'
      → Sent fl j db config now_iso now_epoch trace_id c
          (ranked fl j db config now_iso now_epoch trace_id c)
          s
          s'
  publish_top-Sent c s none finite e h =
      inl (ap (λ (t : Service). t.sent) (sym (some-injective _ _ h)), inl e)
  publish_top-Sent c s (some found) {s'} finite e h =
      subst
        (λ rows.
          All (FiniteScore j laws) (map (digest_article j db) rows)
          → Sent fl j db config now_iso now_epoch trace_id c (map (digest_article j db) rows) s s')
        (db_laws.top_ok config.weights (cutoff_of j db now_epoch config.digest_period_hours)
          config.digest_top_n c e)
        (λ all_finite.
          if_split
            (λ (r : Option Service).
              r ≡ some s' → Sent fl j db config now_iso now_epoch trace_id c top s s')
            (is_empty top)
            (λ none_found e'. inl (
              ap (λ (t : Service). t.sent) (sym (some-injective _ _ e')),
              inr (inl (is_empty→nil none_found)),
            ))
            (λ _. send_digest-Sent c top s _ all_finite refl) h)
        finite
    where
      top : List (DigestArticle F)
      top = map (digest_article j db) found

  -- With libraries that meet the laws, a period below 2^32, and where the scores of the ranked rows are finite, a tick that ends
  -- without an exception sends exactly one frame: a digest for the fanout exchange in a text that
  -- reads back as the message with the ranked rows of the table. Only where the query fails, finds
  -- nothing, or the channel is not usable does it send nothing.
  pub publish_digest-Sent :
      (c : db.Conn) (s : Service) {s' : Service}
      → All (FiniteScore j laws) (ranked fl j db config now_iso now_epoch trace_id c)
      → publish_digest j db config accepted now_iso now_epoch trace_id c s ≡ some s'
      → Sent fl j db config now_iso now_epoch trace_id c
          (ranked fl j db config now_iso now_epoch trace_id c)
          s
          s'
  unfolding publish_digest top_articles
  publish_digest-Sent c s finite e = publish_top-Sent c s _ finite refl e
