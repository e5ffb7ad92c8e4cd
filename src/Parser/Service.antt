-- ===== src/Parser/Service.antt =====
-- `ParserService` of services/parser/src/parser_service.cpp. `parsed_at` is what the clock says,
-- and `accepted` is what the AMQP library answers to a publish.
use habr_parser.Base.{
  ℕ, ◌≡◌, refl, [], ◌∷◌, ◌++◌, append_assoc, Bool, true, false, ◌&&◌, Option, none, some, arith,
  Bytes, is_empty, if◌then◌else◌, if_split, Bool-cases, is_empty→nil, inl, inr, ◌⊎◌,
}
use habr_parser.Double.{Double}
use habr_parser.Json.{Json, JsonLaws}
use habr_parser.Messages.{
  RawArticlesMessage, ParsedArticlesMessage, raw_articles_queue, parsed_articles_queue,
}
use habr_parser.Codec.{decode_raw, encode_parsed, decode_parsed}
use habr_parser.Codec.RoundTrip.{decode_parsed-encode_parsed}
use habr_parser.Config.{ParserConfig}
use habr_parser.Amqp.{
  Service, Frame, basic_publish, basic_ack, basic_reject, Ack, declare_queue, consume, publish,
  on_received, deliver,
}
use habr_parser.Parser.Page.{Dom, parse_page}

unfoldable pub on_channel_ready : ParserConfig → Service → Service
on_channel_ready config s =
    consume raw_articles_queue config.prefetch
      (declare_queue parsed_articles_queue (declare_queue raw_articles_queue s))

module _ {F : Type 0} (fl : Double F) (j : Json F) (dom : Dom) (config : ParserConfig) where
  unfoldable pub parsed_message : Bytes → RawArticlesMessage → ParsedArticlesMessage
  parsed_message parsed_at raw = record {
    fetch_id = raw.fetch_id;
    source_url = raw.source_url;
    parsed_at = parsed_at;
    trace_id = raw.trace_id;
    articles = (parse_page dom fl config.base_url raw.raw_html).articles;
  }

  module _ (parsed_at : Bytes) (accepted : Bool) where
    -- What follows the dump, which throws on text that is not UTF-8.
    abbrev pub publish_parsed : Option Bytes → Service → Service × Option Ack
    publish_parsed none s = (s, none)
    publish_parsed (some out) s =
        let (s', done) = publish accepted parsed_articles_queue out s in
        (s', some (if done then Ack.ack else Ack.requeue))

    abbrev pub handle_raw : Option RawArticlesMessage → Service → Service × Option Ack
    handle_raw none s = (s, some Ack.reject)
    handle_raw (some raw) s =
        let message = parsed_message parsed_at raw in
        if is_empty message.articles
        then (s, some Ack.ack)
        else publish_parsed (encode_parsed j message) s

    -- `HandleRawArticles`
    unfoldable pub handle_raw_articles : Bytes → Service → Service × Option Ack
    handle_raw_articles payload s = handle_raw (decode_raw j payload) s

  -- The articles of a page, with the ids under which it was fetched.
  pub record OfPage (parsed_at : Bytes) (raw : RawArticlesMessage) (m : ParsedArticlesMessage)
      : Type 0 where
    pub fetch_id : m.fetch_id ≡ raw.fetch_id
    pub source_url : m.source_url ≡ raw.source_url
    pub parsed_at_kept : m.parsed_at ≡ parsed_at
    pub trace_id : m.trace_id ≡ raw.trace_id
    pub articles : m.articles ≡ (parse_page dom fl config.base_url raw.raw_html).articles

  parsed_message-OfPage :
      (parsed_at : Bytes) (raw : RawArticlesMessage)
      → OfPage parsed_at raw (parsed_message parsed_at raw)
  unfolding parsed_message
  parsed_message-OfPage parsed_at raw = record {
    fetch_id = refl;
    source_url = refl;
    parsed_at_kept = refl;
    trace_id = refl;
    articles = refl;
  }

  -- What a delivery comes to: the frames that are sent, the last of them settling the delivery.
  pub data Outcome (parsed_at : Bytes) (accepted : Bool) (tag : ℕ) (payload : Bytes) (s t : Service)
      : Type 0 where
    -- A payload that is no raw_articles message is dropped.
    malformed :
        decode_raw j payload ≡ none
        → t.sent ≡ s.sent ++ basic_reject tag false ∷ []
        → Outcome parsed_at accepted tag payload s t
    -- A page without articles is acknowledged.
    no_articles :
        (raw : RawArticlesMessage)
        → decode_raw j payload ≡ some raw
        → (parsed_message parsed_at raw).articles ≡ []
        → t.sent ≡ s.sent ++ basic_ack tag ∷ []
        → Outcome parsed_at accepted tag payload s t
    -- Articles that cannot be written as JSON are dropped with their page.
    unprintable :
        (raw : RawArticlesMessage)
        → decode_raw j payload ≡ some raw
        → encode_parsed j (parsed_message parsed_at raw) ≡ none
        → t.sent ≡ s.sent ++ basic_reject tag false ∷ []
        → Outcome parsed_at accepted tag payload s t
    -- Without a usable channel nothing is published, and the page is queued again.
    offline :
        (raw : RawArticlesMessage)
        → decode_raw j payload ≡ some raw
        → (s.channel && s.channel_ready) ≡ false
        → t.sent ≡ s.sent ++ basic_reject tag true ∷ []
        → Outcome parsed_at accepted tag payload s t
    -- The library is given the articles in a text that reads back as the articles with the ids of
    -- the page. Then the page is acknowledged if the library took the text, and else queued again.
    published :
        (raw : RawArticlesMessage) (m : ParsedArticlesMessage) (out : Bytes) (settled : Frame)
        → decode_raw j payload ≡ some raw
        → (s.channel && s.channel_ready) ≡ true
        → decode_parsed j out ≡ some m
        → OfPage parsed_at raw m
        → t.sent ≡ s.sent ++ basic_publish [] parsed_articles_queue out ∷ settled ∷ []
        → ((accepted ≡ true) × (settled ≡ basic_ack tag))
          ⊎ ((accepted ≡ false) × (settled ≡ basic_reject tag true))
        → Outcome parsed_at accepted tag payload s t

  module _ (laws : JsonLaws j) where
    publish_parsed-Outcome :
        (parsed_at : Bytes) (accepted : Bool) (tag : ℕ) (payload : Bytes) (s : Service)
        (raw : RawArticlesMessage)
        → decode_raw j payload ≡ some raw
        → (encoded : Option Bytes) → encode_parsed j (parsed_message parsed_at raw) ≡ encoded
        → Outcome parsed_at accepted tag payload s
            (deliver (λ _. publish_parsed parsed_at accepted encoded) tag payload s)
    unfolding deliver publish
    publish_parsed-Outcome parsed_at accepted tag payload s raw d none e = unprintable raw d e refl
    publish_parsed-Outcome parsed_at accepted tag payload s raw d (some out) e =
        let settled = if accepted then basic_ack tag else basic_reject tag true in
        let frame = basic_publish [] parsed_articles_queue out in
        elim (Bool-cases (s.channel && s.channel_ready)) [
          | inl on ↦
              published raw _ out settled d on (decode_parsed-encode_parsed j laws _ e)
                (parsed_message-OfPage parsed_at raw)
                (ground (arith, append_assoc s.sent (frame ∷ []) (settled ∷ []))) (ground arith)
          | inr off ↦ offline raw d off (ground arith)
        ]

    handle_raw-Outcome :
        (parsed_at : Bytes) (accepted : Bool) (tag : ℕ) (payload : Bytes) (s : Service)
        (decoded : Option RawArticlesMessage)
        → decode_raw j payload ≡ decoded
        → Outcome parsed_at accepted tag payload s
            (deliver (λ _. handle_raw parsed_at accepted decoded) tag payload s)
    unfolding deliver
    handle_raw-Outcome parsed_at accepted tag payload s none d = malformed d refl
    handle_raw-Outcome parsed_at accepted tag payload s (some raw) d =
        let message = parsed_message parsed_at raw in
        if_split
          (λ (r : Service × Option Ack).
            Outcome parsed_at accepted tag payload s (on_received r.1 tag r.0))
          (is_empty message.articles) (λ e. no_articles raw d (is_empty→nil e) refl)
          (λ _. publish_parsed-Outcome parsed_at accepted tag payload s raw d _ refl)

    pub handle_raw_articles-Outcome :
        (parsed_at : Bytes) (accepted : Bool) (tag : ℕ) (payload : Bytes) (s : Service)
        → Outcome parsed_at accepted tag payload s
            (deliver (handle_raw_articles parsed_at accepted) tag payload s)
    unfolding handle_raw_articles deliver
    handle_raw_articles-Outcome parsed_at accepted tag payload s =
        handle_raw-Outcome parsed_at accepted tag payload s (decode_raw j payload) refl
