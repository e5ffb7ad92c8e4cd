-- ===== src/Hooks/Laws.antt =====
-- The hooks of the services meet the laws of the skeleton.
use habr_parser.Base.{List, is_empty, Option, none, some, Bytes, if_split}
use habr_parser.Amqp.{
  Ack, deliver, Service, declare_queue, declare_fanout_exchange, consume, publish,
  publish_to_exchange,
}
use habr_parser.Double.{Double}
use habr_parser.Json.{Json}
use habr_parser.Parser.Page.{Dom}
use habr_parser.Messages.{
  DigestArticle, parsed_articles_queue, digest_ready_exchange, RawArticlesMessage,
  DigestReadyMessage,
}
use habr_parser.Config.{FetcherConfig, ParserConfig, StorageConfig, NotifierConfig, WebConfig}
use habr_parser.Storage.Engine.{Sqlite}
use habr_parser.Fetcher
use habr_parser.Parser.Service as ParserService
use habr_parser.Storage.Service as StorageService
use habr_parser.Storage.Store.{top_articles}
use habr_parser.Codec.{encode_raw, encode_digest, encode_parsed, decode_raw}
use habr_parser.Notifier
use habr_parser.Web
use habr_parser.Hooks.{
  after, Reading, fetcher_hooks, storage_hooks, parser_hooks, notifier_hooks, web_hooks,
}
use habr_parser.Amqp.Quiet.{
  Quiet, Quiet-refl, Quiet-trans, declare_queue-Quiet, consume-Quiet, declare_fanout_exchange-Quiet,
  bind_queue-Quiet, publish_to-Quiet, publish-Quiet, sending-HookLaws, on_received-Quiet,
  timed-HookLaws,
}
use habr_parser.Amqp.Invariant.{HookLaws}

abbrev Then : Service → Option Service → Type 0
Then s o = Quiet s (after s o)

-- The queues, the exchange and the consumer of each service.
parser_ready-Quiet :
    (config : ParserConfig) (s : Service) → Quiet s (ParserService.on_channel_ready config s)
unfolding ParserService.on_channel_ready
parser_ready-Quiet config s =
    Quiet-trans (declare_queue-Quiet _ s)
      (Quiet-trans (declare_queue-Quiet _ _) (consume-Quiet _ _ _))

notifier_ready-Quiet :
    (config : NotifierConfig) (s : Service) → Quiet s (Notifier.on_channel_ready config s)
unfolding Notifier.on_channel_ready
notifier_ready-Quiet config s = Quiet-trans (declare_fanout_exchange-Quiet _ s) (
    Quiet-trans (declare_queue-Quiet _ _)
      (Quiet-trans (bind_queue-Quiet _ _ _) (consume-Quiet _ _ _)))

web_ready-Quiet : (config : WebConfig) (s : Service) → Quiet s (Web.on_channel_ready config s)
unfolding Web.on_channel_ready
web_ready-Quiet config s = Quiet-trans (declare_fanout_exchange-Quiet _ s) (
    Quiet-trans (declare_queue-Quiet _ _)
      (Quiet-trans (bind_queue-Quiet _ _ _) (consume-Quiet _ _ _)))

module _ {F : Type 0} (fl : Double F) (j : Json F) where
  parser_handler-Quiet :
      (dom : Dom) (config : ParserConfig) (r : Reading) (decoded : Option RawArticlesMessage)
      (s : Service)
      → Quiet s (ParserService.handle_raw fl j dom config r.now_iso r.accepted decoded s).0
  parser_handler-Quiet dom config r none s = Quiet-refl s
  parser_handler-Quiet dom config r (some raw) s =
      if_split (λ (o : Service × Option Ack). Quiet s o.0)
        (is_empty (ParserService.parsed_message fl j dom config r.now_iso raw).articles)
        (λ _. Quiet-refl s) (λ _. sent (encode_parsed j _))
    where
      sent :
          (o : Option Bytes)
          → Quiet s (ParserService.publish_parsed fl j dom config r.now_iso r.accepted o s).0
      sent none = Quiet-refl s
      sent (some out) = publish-Quiet r.accepted parsed_articles_queue out s

  parser_delivery-Quiet :
      (dom : Dom) (config : ParserConfig) (r : Reading) (s : Service)
      → Quiet s (
          deliver
            (ParserService.handle_raw_articles fl j dom config r.now_iso r.accepted)
            r.tag
            r.payload
            s)
  unfolding deliver ParserService.handle_raw_articles
  parser_delivery-Quiet dom config r s =
      Quiet-trans (parser_handler-Quiet dom config r (decode_raw j r.payload) s) (
        on_received-Quiet
          (ParserService.handle_raw_articles fl j dom config r.now_iso r.accepted r.payload s).1
          r.tag _)

  pub parser_hooks-HookLaws :
      (dom : Dom) (config : ParserConfig) (r : Reading) → HookLaws (parser_hooks fl j dom config r)
  unfolding parser_hooks
  parser_hooks-HookLaws dom config r =
      sending-HookLaws _ _ (parser_ready-Quiet config) (parser_delivery-Quiet dom config r)

  pub notifier_hooks-HookLaws :
      (config : NotifierConfig) (first second : Notifier.Disk) (files : Notifier.Files)
      (r : Reading)
      → HookLaws (notifier_hooks fl j config first second files r)
  unfolding notifier_hooks
  notifier_hooks-HookLaws config first second files r =
      sending-HookLaws _ _ (notifier_ready-Quiet config) (on_received-Quiet _ r.tag)

  pub web_hooks-HookLaws :
      (config : WebConfig) (digests : List (DigestReadyMessage F)) (r : Reading)
      → HookLaws (web_hooks fl j config digests r)
  unfolding web_hooks
  web_hooks-HookLaws config digests r =
      sending-HookLaws _ _ (web_ready-Quiet config) (on_received-Quiet _ r.tag)

module _ {F : Type 0} (j : Json F) where
  fetcher_tick-Quiet :
      (config : FetcherConfig) (curl : Fetcher.Curl) (r : Reading) (s : Service)
      → Then s (Fetcher.on_tick j config r.accepted r.now_iso r.later_iso r.trace_id curl s)
  unfolding Fetcher.on_tick publish
  fetcher_tick-Quiet config curl r s =
      if_split (Then s) response.ok (λ _. sent (encode_raw j _)) (λ _. Quiet-refl s)
    where
      response : Fetcher.HttpResponse
      response = Fetcher.get curl config.user_agent config.fetch_timeout_seconds config.habr_url

      sent :
          (o : Option Bytes)
          → Then s (Fetcher.send_page j config r.accepted r.now_iso r.later_iso r.trace_id o s)
      sent none = Quiet-refl s
      sent (some out) = publish_to-Quiet _ _ _ _ s

  pub fetcher_hooks-HookLaws :
      (config : FetcherConfig) (curl : Fetcher.Curl) (r : Reading)
      → HookLaws (fetcher_hooks j config curl r)
  unfolding fetcher_hooks Fetcher.on_channel_ready
  fetcher_hooks-HookLaws config curl r =
      timed-HookLaws _ _ _ _ _ (declare_queue-Quiet _) (fetcher_tick-Quiet config curl r) Quiet-refl

  storage_tick-Quiet :
      (db : Sqlite F) (config : StorageConfig F) (c : db.Conn) (r : Reading) (s : Service)
      → Then s (
          StorageService.publish_digest j db config r.accepted r.now_iso r.now_epoch r.trace_id c s)
  unfolding StorageService.publish_digest publish_to_exchange
  storage_tick-Quiet db config c r s = found (
      top_articles j db r.now_epoch config.digest_period_hours config.digest_top_n config.weights c)
    where
      sent :
          (o : Option Bytes)
          → Then s (
              StorageService.send_digest j db config r.accepted r.now_iso r.now_epoch r.trace_id o
                s)
      sent none = Quiet-refl s
      sent (some out) = publish_to-Quiet _ _ _ _ s

      found :
          (o : Option (List (DigestArticle F)))
          → Then s (
              StorageService.publish_top j db config r.accepted r.now_iso r.now_epoch r.trace_id o
                s)
      found none = Quiet-refl s
      found (some top) =
          if_split (Then s) (is_empty top) (λ _. Quiet-refl s) (λ _. sent (encode_digest j _))

  storage_declares-Quiet :
      (db : Sqlite F) (config : StorageConfig F) (s : Service)
      → Quiet s (
          consume parsed_articles_queue config.prefetch
            (declare_fanout_exchange digest_ready_exchange (declare_queue parsed_articles_queue s)))
  storage_declares-Quiet db config s =
      Quiet-trans (declare_queue-Quiet _ s)
        (Quiet-trans (declare_fanout_exchange-Quiet _ _) (consume-Quiet _ _ _))

  pub storage_hooks-HookLaws :
      (db : Sqlite F) (config : StorageConfig F) (c : db.Conn) (r : Reading)
      → HookLaws (storage_hooks j db config c r)
  unfolding storage_hooks StorageService.on_channel_ready
  storage_hooks-HookLaws db config c r =
      timed-HookLaws _ _ _ _ _ (storage_declares-Quiet db config) (storage_tick-Quiet db config c r)
        (on_received-Quiet _ r.tag)
