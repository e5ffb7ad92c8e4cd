-- ===== src/Hooks/Topology.antt =====
-- The services declare what they consume, bind and publish to.
use habr_parser.Base.{
  ℕ, ◌≡◌, refl, List, [], ◌∷◌, true, Option, none, some, Bytes, if_split, utf8, is_empty,
}
use habr_parser.Double.{Double}
use habr_parser.Json.{Json}
use habr_parser.Parser.Page.{Dom}
use habr_parser.Messages.{
  RawArticlesMessage, DigestReadyMessage, DigestArticle, raw_articles_queue, parsed_articles_queue,
  digest_ready_exchange, digest_notifier_queue, digest_web_queue,
}
use habr_parser.Codec.{encode_parsed, decode_raw, encode_raw, encode_digest}
use habr_parser.Config.{FetcherConfig, ParserConfig, StorageConfig, NotifierConfig, WebConfig}
use habr_parser.Amqp.{
  Ack, deliver, Service, Frame, queue_declare, fanout_declare, declare_queue,
  declare_fanout_exchange, bind_queue, consume, start_timer, publish, publish_to_exchange,
}
use habr_parser.Amqp.Topology.{Ordered, Has, Told, Declares}
use habr_parser.Amqp.Topology.Calls.{
  on_received-Told, declare_queue-Grown, declare_fanout_exchange-Grown, bind_queue-Grown,
  consume-Grown, publish_to-Told,
}
use habr_parser.Storage.Engine.{Sqlite}
use habr_parser.Storage.Store.{top_articles}
use habr_parser.Fetcher
use habr_parser.Parser.Service as ParserService
use habr_parser.Storage.Service as StorageService
use habr_parser.Notifier
use habr_parser.Web
use habr_parser.Hooks.{
  after, Reading, fetcher_hooks, storage_hooks, parser_hooks, notifier_hooks, web_hooks,
}

-- The setup of a subscriber of an exchange.
subscriber-Has :
    (queue exchange : Bytes) (n : ℕ) (s : Service)
    → s.channel ≡ true
    → Ordered s.sent
    → let t =
        consume queue n
          (bind_queue queue exchange (declare_queue queue (declare_fanout_exchange exchange s))) in
      Ordered t.sent × Has (fanout_declare exchange ∷ queue_declare queue ∷ []) t.sent
subscriber-Has queue exchange n s on o =
    let (g, e) = declare_fanout_exchange-Grown exchange s on o in
    let (g', q) = declare_queue-Grown queue _ g.channel g.ordered in
    let e' = g'.keeps _ e in
    let b = bind_queue-Grown queue exchange _ g'.channel g'.ordered q e' in
    let c = consume-Grown queue n _ b.channel b.ordered (b.keeps _ q) in
    (c.ordered, (c.keeps _ (b.keeps _ e'), (c.keeps _ (b.keeps _ q), tt)))

abbrev pub notifier_needs : List Frame
notifier_needs = fanout_declare digest_ready_exchange ∷ queue_declare digest_notifier_queue ∷ []

abbrev pub web_needs : List Frame
web_needs = fanout_declare digest_ready_exchange ∷ queue_declare digest_web_queue ∷ []

abbrev pub parser_needs : List Frame
parser_needs = queue_declare raw_articles_queue ∷ queue_declare parsed_articles_queue ∷ []

abbrev pub storage_needs : List Frame
storage_needs = queue_declare parsed_articles_queue ∷ fanout_declare digest_ready_exchange ∷ []

abbrev pub fetcher_needs : List Frame
fetcher_needs = queue_declare raw_articles_queue ∷ []

parser_ready-Has :
    (config : ParserConfig) (s : Service)
    → s.channel ≡ true
    → Ordered s.sent
    → let t = ParserService.on_channel_ready config s in Ordered t.sent × Has parser_needs t.sent
unfolding ParserService.on_channel_ready
parser_ready-Has config s on o =
    let (g, q) = declare_queue-Grown raw_articles_queue s on o in
    let (g', p) = declare_queue-Grown parsed_articles_queue _ g.channel g.ordered in
    let q' = g'.keeps _ q in
    let c = consume-Grown raw_articles_queue config.prefetch _ g'.channel g'.ordered q' in
    (c.ordered, (c.keeps _ q', (c.keeps _ p, tt)))

module _ {F : Type 0} (fl : Double F) (j : Json F) where
  pub notifier_hooks-Declares :
      (config : NotifierConfig) (first second : Notifier.Disk) (files : Notifier.Files)
      (r : Reading)
      → Declares notifier_needs (notifier_hooks fl j config first second files r)
  unfolding notifier_hooks Notifier.on_channel_ready
  notifier_hooks-Declares config first second files r = record {
    on_ready =
        λ s on o. subscriber-Has digest_notifier_queue digest_ready_exchange config.prefetch s on o;
    on_lost = λ s. refl;
    on_tick = λ s v. v;
    on_delivery = on_received-Told notifier_needs _ r.tag;
  }

  pub web_hooks-Declares :
      (config : WebConfig) (digests : List (DigestReadyMessage F)) (r : Reading)
      → Declares web_needs (web_hooks fl j config digests r)
  unfolding web_hooks Web.on_channel_ready
  web_hooks-Declares config digests r = record {
    on_ready =
        λ s on o. subscriber-Has digest_web_queue digest_ready_exchange config.prefetch s on o;
    on_lost = λ s. refl;
    on_tick = λ s v. v;
    on_delivery = on_received-Told web_needs _ r.tag;
  }

  parser_handler-Told :
      (dom : Dom) (config : ParserConfig) (r : Reading) (decoded : Option RawArticlesMessage)
      (s : Service)
      → Told parser_needs s
      → Told parser_needs
          (ParserService.handle_raw fl j dom config r.now_iso r.accepted decoded s).0
  unfolding publish
  parser_handler-Told dom config r none s v = v
  parser_handler-Told dom config r (some raw) s v =
      if_split (λ (o : Service × Option Ack). Told parser_needs o.0)
        (is_empty (ParserService.parsed_message fl j dom config r.now_iso raw).articles) (λ _. v)
        (λ _. sent (encode_parsed j _))
    where
      sent :
          (o : Option Bytes)
          → Told parser_needs
              (ParserService.publish_parsed fl j dom config r.now_iso r.accepted o s).0
      sent none = v
      sent (some out) =
          publish_to-Told parser_needs r.accepted [] parsed_articles_queue out s (λ h. h.1.0) v

  parser_delivery-Told :
      (dom : Dom) (config : ParserConfig) (r : Reading) (s : Service)
      → Told parser_needs s
      → Told parser_needs (
          deliver
            (ParserService.handle_raw_articles fl j dom config r.now_iso r.accepted)
            r.tag
            r.payload
            s)
  unfolding deliver ParserService.handle_raw_articles
  parser_delivery-Told dom config r s v =
      on_received-Told parser_needs
        (ParserService.handle_raw_articles fl j dom config r.now_iso r.accepted r.payload s).1 r.tag
        _ (parser_handler-Told dom config r (decode_raw j r.payload) s v)

  pub parser_hooks-Declares :
      (dom : Dom) (config : ParserConfig) (r : Reading)
      → Declares parser_needs (parser_hooks fl j dom config r)
  unfolding parser_hooks
  parser_hooks-Declares dom config r = record {
    on_ready = parser_ready-Has config;
    on_lost = λ s. refl;
    on_tick = λ s v. v;
    on_delivery = parser_delivery-Told dom config r;
  }

module _ {F : Type 0} (j : Json F) where
  fetcher_ready-Has :
      (config : FetcherConfig) (s : Service)
      → s.channel ≡ true
      → Ordered s.sent
      → let t = Fetcher.on_channel_ready config s in Ordered t.sent × Has fetcher_needs t.sent
  unfolding Fetcher.on_channel_ready start_timer
  fetcher_ready-Has config s on o =
      let (g, q) = declare_queue-Grown raw_articles_queue s on o in (g.ordered, (q, tt))

  fetcher_tick-Told :
      (config : FetcherConfig) (curl : Fetcher.Curl) (r : Reading) (s : Service)
      → Told fetcher_needs s
      → Told fetcher_needs
          (after s (Fetcher.on_tick j config r.accepted r.now_iso r.later_iso r.trace_id curl s))
  unfolding Fetcher.on_tick publish
  fetcher_tick-Told config curl r s v =
      if_split (λ o. Told fetcher_needs (after s o)) response.ok (λ _. sent (encode_raw j _))
        (λ _. v)
    where
      response : Fetcher.HttpResponse
      response = Fetcher.get curl config.user_agent config.fetch_timeout_seconds config.habr_url

      sent :
          (o : Option Bytes)
          → Told fetcher_needs
              (after s (Fetcher.send_page j config r.accepted r.now_iso r.later_iso r.trace_id o s))
      sent none = v
      sent (some out) =
          publish_to-Told fetcher_needs r.accepted [] raw_articles_queue out s (λ h. h.0) v

  pub fetcher_hooks-Declares :
      (config : FetcherConfig) (curl : Fetcher.Curl) (r : Reading)
      → Declares fetcher_needs (fetcher_hooks j config curl r)
  unfolding fetcher_hooks
  fetcher_hooks-Declares config curl r = record {
    on_ready = fetcher_ready-Has config;
    on_lost = λ s. refl;
    on_tick = fetcher_tick-Told config curl r;
    on_delivery = λ s v. v;
  }

  storage_ready-Has :
      (db : Sqlite F) (config : StorageConfig F) (s : Service)
      → s.channel ≡ true
      → Ordered s.sent
      → let t = StorageService.on_channel_ready j db config s in
        Ordered t.sent × Has storage_needs t.sent
  unfolding StorageService.on_channel_ready start_timer
  storage_ready-Has db config s on o =
      let (g, q) = declare_queue-Grown parsed_articles_queue s on o in
      let (g', e) = declare_fanout_exchange-Grown digest_ready_exchange _ g.channel g.ordered in
      let q' = g'.keeps _ q in
      let c = consume-Grown parsed_articles_queue config.prefetch _ g'.channel g'.ordered q' in
      (c.ordered, (c.keeps _ q', (c.keeps _ e, tt)))

  storage_tick-Told :
      (db : Sqlite F) (config : StorageConfig F) (c : db.Conn) (r : Reading) (s : Service)
      → Told storage_needs s
      → Told storage_needs (
          after s (
            StorageService.publish_digest j db config r.accepted r.now_iso r.now_epoch r.trace_id c
              s))
  unfolding StorageService.publish_digest publish_to_exchange utf8
  storage_tick-Told db config c r s v = found (
      top_articles j db r.now_epoch config.digest_period_hours config.digest_top_n config.weights c)
    where
      sent :
          (o : Option Bytes)
          → Told storage_needs (
              after s (
                StorageService.send_digest j db config r.accepted r.now_iso r.now_epoch r.trace_id o
                  s))
      sent none = v
      sent (some out) =
          publish_to-Told storage_needs r.accepted digest_ready_exchange [] out s (λ h. h.1.0) v

      found :
          (o : Option (List (DigestArticle F)))
          → Told storage_needs (
              after s (
                StorageService.publish_top j db config r.accepted r.now_iso r.now_epoch r.trace_id o
                  s))
      found none = v
      found (some top) =
          if_split (λ o. Told storage_needs (after s o)) (is_empty top) (λ _. v)
            (λ _. sent (encode_digest j _))

  pub storage_hooks-Declares :
      (db : Sqlite F) (config : StorageConfig F) (c : db.Conn) (r : Reading)
      → Declares storage_needs (storage_hooks j db config c r)
  unfolding storage_hooks
  storage_hooks-Declares db config c r = record {
    on_ready = storage_ready-Has db config;
    on_lost = λ s. refl;
    on_tick = storage_tick-Told db config c r;
    on_delivery = on_received-Told storage_needs _ r.tag;
  }
