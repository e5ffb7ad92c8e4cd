-- ===== src/Fetcher/Tick.antt =====
-- What a tick of the fetcher sends.
use mathlib.Core.Option.{some-injective}
use habr_parser.Base.{
  ◌≡◌, refl, sym, ap, [], ◌∷◌, ◌++◌, Bool, true, false, ◌&&◌, Option, none, some, Bytes, arith, ◌⊎◌,
  inl, inr, Bool-cases, if_split,
}
use habr_parser.Json.{Json, JsonLaws}
use habr_parser.Messages.{RawArticlesMessage, raw_articles_queue}
use habr_parser.Codec.{encode_raw, decode_raw}
use habr_parser.Codec.RoundTrip.{decode_raw-encode_raw}
use habr_parser.Config.{FetcherConfig}
use habr_parser.Amqp.{Service, basic_publish, publish}
use habr_parser.Fetcher.{Curl, HttpResponse, get, raw_message, send_page, on_tick}

module _ {F : Type 0} (j : Json F) (config : FetcherConfig)
    (fetch_id fetched_at trace_id : Bytes) where
  -- A page with the ids of the tick and the address that was asked for.
  pub record OfFetch (response : HttpResponse) (m : RawArticlesMessage) : Type 0 where
    pub fetch_id_kept : m.fetch_id ≡ fetch_id
    pub source_url : m.source_url ≡ config.habr_url
    pub raw_html : m.raw_html ≡ response.body
    pub fetched_at_kept : m.fetched_at ≡ fetched_at
    pub trace_id_kept : m.trace_id ≡ trace_id

  raw_message-OfFetch :
      (response : HttpResponse)
      → OfFetch response (raw_message config fetch_id fetched_at trace_id response.body)
  unfolding raw_message
  raw_message-OfFetch response = record {
    fetch_id_kept = refl;
    source_url = refl;
    raw_html = refl;
    fetched_at_kept = refl;
    trace_id_kept = refl;
  }

  -- Nothing is sent, as there is no page or the channel is not usable; or the page is.
  abbrev pub Sent : HttpResponse → Service → Service → Type 0
  Sent response s s' =
      ((s'.sent ≡ s.sent) × ((response.ok ≡ false) ⊎ ((s.channel && s.channel_ready) ≡ false)))
      ⊎ ((out : Bytes) × (response.ok ≡ true)
          × (s'.sent ≡ s.sent ++ basic_publish [] raw_articles_queue out ∷ [])
          × (m : RawArticlesMessage) × (decode_raw j out ≡ some m)
          × OfFetch response m)

module _ {F : Type 0} (j : Json F) (laws : JsonLaws j) (config : FetcherConfig) (accepted : Bool)
    (fetch_id fetched_at trace_id : Bytes) where
  send_page-Sent :
      (response : HttpResponse) (s : Service) (o : Option Bytes) {s' : Service}
      → response.ok ≡ true
      → encode_raw j (raw_message config fetch_id fetched_at trace_id response.body) ≡ o
      → send_page j config accepted fetch_id fetched_at trace_id o s ≡ some s'
      → Sent j config fetch_id fetched_at trace_id response s s'
  unfolding publish
  send_page-Sent response s none ok e h = cc
  send_page-Sent response s (some out) {s'} ok e h =
      elim (Bool-cases (s.channel && s.channel_ready)) [
        | inl on ↦ inr (
          out,
          ok,
          ground arith,
          _,
          decode_raw-encode_raw j laws _ e,
          raw_message-OfFetch j config fetch_id fetched_at trace_id response,
        )
        | inr off ↦ inl (ground arith, inr off)
      ]

  -- A tick that ends without an exception sends exactly one frame: the page that was fetched, in a
  -- text that reads back as the message with the ids of the tick. Only where the fetch failed or
  -- the channel is not usable does it send nothing.
  pub on_tick-Sent :
      (curl : Curl) (s : Service) {s' : Service}
      → on_tick j config accepted fetch_id fetched_at trace_id curl s ≡ some s'
      → Sent j config fetch_id fetched_at trace_id
          (get curl config.user_agent config.fetch_timeout_seconds config.habr_url)
          s
          s'
  unfolding on_tick
  on_tick-Sent curl s {s'} h =
      let response = get curl config.user_agent config.fetch_timeout_seconds config.habr_url in
      if_split
        (λ (o : Option Service).
          o ≡ some s' → Sent j config fetch_id fetched_at trace_id response s s')
        response.ok (λ ok. send_page-Sent response s _ ok refl)
        (λ bad e. inl (ap (λ (t : Service). t.sent) (sym (some-injective _ _ e)), inl bad)) h
