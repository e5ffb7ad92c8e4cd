-- ===== src/Pipeline.antt =====
-- One page on its way through the services: the fetcher (services/fetcher/src/fetcher.cpp), the parser
-- (services/parser/src/parser_service.cpp) and the storage (services/storage/src/storage_service.cpp).
pub mod Digest
mod Tests
use mathlib.Core.List.{append_cancel_left, append-nil}
use mathlib.Core.Option.{some-injective}
use mathlib.Core.Path.{subst}
use habr_parser.Base.{
  ℕ, ◌≡◌, refl, ap, sym, ◌∙◌, List, [], ◌∷◌, ◌++◌, Bool, ℤ, Option, none, some, Bytes, length, All,
  inl, inr,
}
use habr_parser.Double.{Double}
use habr_parser.Json.{Json, JsonLaws}
use habr_parser.Messages.{
  RawArticlesMessage, ParsedArticle, ParsedArticlesMessage, raw_articles_queue,
  parsed_articles_queue,
}
use habr_parser.Codec.{decode_raw, decode_parsed}
use habr_parser.Config.{FetcherConfig, ParserConfig}
use habr_parser.Amqp.{Service, Frame, Ack, basic_publish, deliver}
use habr_parser.Fetcher.{Curl, HttpResponse, get, on_tick}
use habr_parser.Fetcher.Tick.{OfFetch, on_tick-Sent}
use habr_parser.Parser.Page.{Dom, parse_page}
use habr_parser.Parser.Service as ParserService
use habr_parser.Parser.Service.{OfPage, handle_raw_articles, handle_raw_articles-Outcome}
use habr_parser.Storage.Table.{Row, upsert_all}
use habr_parser.Storage.Engine.{View, Sqlite, SqliteLaws}
use habr_parser.Storage.Store.Trace.{Each, IsRowOf, traverse-bind_row}
use habr_parser.Storage.Service.{handle_parsed_articles}
use habr_parser.Storage.Service.Delivery as Delivery
use habr_parser.Storage.Service.Delivery.{handle_parsed_articles-Outcome}

-- The rows that come into the table: those of the articles, one by one, under this trace id.
pub record Arrived {F : Type 0} (j : Json F) (db : Sqlite F) (now_iso : Bytes) (now_epoch : ℤ)
    (trace_id : Bytes) (articles : List ParsedArticle) (c c' : db.Conn) : Type 0 where
  pub rows : List Row
  pub of_articles : Each (IsRowOf j now_iso now_epoch trace_id) articles rows
  pub committed : (db.view c').rows ≡ upsert_all rows (db.view c).rows

-- The two frames of a delivery that is published are not one frame.
two_frames : {f g h : Frame} {ℓ : Type 0} → f ∷ [] ≡ g ∷ h ∷ [] → ℓ
two_frames e = absurd (cc e)

module _ {F : Type 0} (fl : Double F) (j : Json F) (laws : JsonLaws j) where
  -- What the fetcher has sent reads as the page of its tick.
  fetched-OfFetch :
      (config : FetcherConfig) (accepted : Bool) (fetch_id fetched_at trace_id : Bytes)
      (curl : Curl) (s : Service) {s' : Service} (page : Bytes)
      → on_tick j config accepted fetch_id fetched_at trace_id curl s ≡ some s'
      → s'.sent ≡ s.sent ++ basic_publish [] raw_articles_queue page ∷ []
      → (m : RawArticlesMessage) × (decode_raw j page ≡ some m)
        × OfFetch j config fetch_id fetched_at trace_id
            (get curl config.user_agent config.fetch_timeout_seconds config.habr_url)
            m
  fetched-OfFetch config accepted fetch_id fetched_at trace_id curl s {s'} page h e =
      elim (on_tick-Sent j laws config accepted fetch_id fetched_at trace_id curl s h) [
        | inl (same, _) ↦
            absurd (cc (append_cancel_left s.sent _ _ (append-nil s.sent ∙ sym same ∙ e)))
        | inr (out, _, e', m, d, o) ↦
            let out_page : out ≡ page = cc (append_cancel_left s.sent _ _ (sym e' ∙ e)) in
            (m, subst (λ t. decode_raw j t ≡ some m) out_page d, o)
      ]

  module _ (dom : Dom) where
    -- What the parser has published reads as the articles of the page that it was given.
    parsed-OfPage :
        (config : ParserConfig) (parsed_at : Bytes) (accepted : Bool) (tag : ℕ) (payload : Bytes)
        (s t : Service) (out : Bytes) (settled : Frame)
        → ParserService.Outcome fl j dom config parsed_at accepted tag payload s t
        → t.sent ≡ s.sent ++ basic_publish [] parsed_articles_queue out ∷ settled ∷ []
        → (raw : RawArticlesMessage) × (m : ParsedArticlesMessage) × (decode_raw j payload
            ≡ some raw)
          × (decode_parsed j out ≡ some m)
          × OfPage fl j dom config parsed_at raw m
    parsed-OfPage config parsed_at accepted tag payload s t out settled
          (ParserService.malformed d e') e =
        two_frames (append_cancel_left s.sent _ _ (sym e' ∙ e))
    parsed-OfPage config parsed_at accepted tag payload s t out settled
          (ParserService.no_articles raw d n e') e =
        two_frames (append_cancel_left s.sent _ _ (sym e' ∙ e))
    parsed-OfPage config parsed_at accepted tag payload s t out settled
          (ParserService.unprintable raw d n e') e =
        two_frames (append_cancel_left s.sent _ _ (sym e' ∙ e))
    parsed-OfPage config parsed_at accepted tag payload s t out settled
          (ParserService.offline raw d n e') e =
        two_frames (append_cancel_left s.sent _ _ (sym e' ∙ e))
    parsed-OfPage config parsed_at accepted tag payload s t out settled
          (ParserService.published raw m out' settled' d _ p o e' _) e =
        let out_out : out' ≡ out = cc (append_cancel_left s.sent _ _ (sym e' ∙ e)) in
        (raw, m, d, subst (λ t. decode_parsed j t ≡ some m) out_out p, o)

  stored-Arrived :
      (db : Sqlite F) (now_iso : Bytes) (now_epoch : ℤ) (payload : Bytes) (c c' : db.Conn)
      (o : Option Ack) (m : ParsedArticlesMessage)
      → Delivery.Outcome j db now_iso now_epoch payload c c' o
      → o ≡ some Ack.ack
      → decode_parsed j payload ≡ some m
      → Arrived j db now_iso now_epoch m.trace_id m.articles c c'
  stored-Arrived db now_iso now_epoch payload c c' o m (Delivery.malformed d same) e h = absurd cc
  stored-Arrived db now_iso now_epoch payload c c' o m (Delivery.failed n d same) e h =
      absurd (cc e)
  stored-Arrived db now_iso now_epoch payload c c' o m (Delivery.uncounted q r) e h = absurd (cc e)
  stored-Arrived db now_iso now_epoch payload c c' o m (Delivery.empty n d none_found same) e h =
      let n_m : n ≡ m = some-injective _ _ (sym d ∙ h) in
      record {
        rows = [];
        of_articles =
            subst (λ articles. Each (IsRowOf j now_iso now_epoch m.trace_id) articles [])
              (sym (subst (λ (n : ParsedArticlesMessage). n.articles ≡ []) n_m none_found)) tt;
        committed = ap (λ x. (db.view x).rows) same;
      }
  stored-Arrived db now_iso now_epoch payload c c' o m (Delivery.saved n d ne (rs, bound, rows, _))
        e h =
      let n_m : n ≡ m = some-injective _ _ (sym d ∙ h) in
      subst (λ m. Arrived j db now_iso now_epoch m.trace_id m.articles c c') n_m
        (record {
          rows = rs;
          of_articles = traverse-bind_row j db now_iso now_epoch n.trace_id n.articles rs bound;
          committed = rows;
        })

  -- With libraries that meet the laws, a page that a tick fetched under a trace id, whose articles the parser published from it, and
  -- which the storage acknowledged, is in the table: the committed
  -- rows are those before with the rows of its articles upserted, one for each article in order, each
  -- with all fields of the article and that trace id, every text up to its first NUL.
  pub trace_id_arrives :
      (dom : Dom) (db : Sqlite F) (db_laws : SqliteLaws fl db) (fetcher : FetcherConfig)
      (accepted : Bool) (fetch_id fetched_at trace_id : Bytes) (curl : Curl) (s : Service)
      {s' : Service} (page : Bytes)
      → on_tick j fetcher accepted fetch_id fetched_at trace_id curl s ≡ some s'
      → s'.sent ≡ s.sent ++ basic_publish [] raw_articles_queue page ∷ []
      → (parser : ParserConfig) (parsed_at : Bytes) (accepted' : Bool) (tag : ℕ) (t : Service)
        (out : Bytes) (settled : Frame)
      → (deliver (handle_raw_articles fl j dom parser parsed_at accepted') tag page t).sent
        ≡ t.sent ++ basic_publish [] parsed_articles_queue out ∷ settled ∷ []
      → (now_iso : Bytes) (now_epoch : ℤ) (c : db.Conn)
      → let r = handle_parsed_articles j db now_iso now_epoch out c in
        let body =
          (get curl fetcher.user_agent fetcher.fetch_timeout_seconds fetcher.habr_url).body in
        r.1 ≡ some Ack.ack
        → Arrived j db now_iso now_epoch trace_id
            (parse_page dom fl parser.base_url body).articles
            c
            r.0
  trace_id_arrives dom db db_laws fetcher accepted fetch_id fetched_at trace_id curl s page h e
        parser parsed_at accepted' tag t out settled e' now_iso now_epoch c ack =
      let (raw, d, fetched) =
        fetched-OfFetch fetcher accepted fetch_id fetched_at trace_id curl s page h e in
      let (raw', m, d', p, parsed) =
        parsed-OfPage dom parser parsed_at accepted' tag page t _ out settled
          (handle_raw_articles-Outcome fl j dom parser laws parsed_at accepted' tag page t) e' in
      let same : raw' ≡ raw = some-injective _ _ (sym d' ∙ d) in
      let response = get curl fetcher.user_agent fetcher.fetch_timeout_seconds fetcher.habr_url in
      let ids : m.trace_id ≡ trace_id =
        parsed.trace_id
        ∙ ap (λ (r : RawArticlesMessage). r.trace_id) same
        ∙ fetched.trace_id_kept in
      let articles : m.articles ≡ (parse_page dom fl parser.base_url response.body).articles =
        parsed.articles
        ∙ ap (λ (r : RawArticlesMessage). (parse_page dom fl parser.base_url r.raw_html).articles)
            same
        ∙ ap (λ b. (parse_page dom fl parser.base_url b).articles) fetched.raw_html in
      let r = handle_parsed_articles j db now_iso now_epoch out c in
      rw (← ids, ← articles)
        (stored-Arrived db now_iso now_epoch out c r.0 r.1 m
          (handle_parsed_articles-Outcome fl j db db_laws now_iso now_epoch out c) ack p)
