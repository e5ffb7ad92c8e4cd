-- ===== src/Hooks/Settled.antt =====
-- Each consumer settles each of its deliveries once: the laws of Amqp/Settled for the hooks of the
-- services that consume.
use habr_parser.Base.{
  refl, ◌∙◌, List, [], ◌∷◌, ◌++◌, is_empty, Option, none, some, Bytes, if_split, ap,
}
use habr_parser.Double.{Double}
use habr_parser.Json.{Json}
use habr_parser.Messages.{
  DigestArticle, RawArticlesMessage, DigestReadyMessage, parsed_articles_queue,
  digest_ready_exchange,
}
use habr_parser.Codec.{encode_digest, encode_parsed, decode_raw}
use habr_parser.Parser.Page.{Dom}
use habr_parser.Config.{ParserConfig, StorageConfig, NotifierConfig, WebConfig}
use habr_parser.Amqp.{Service, Ack, deliver, start_timer}
use habr_parser.Amqp.Settled.{
  Unsettling, SettleLaws, declare_queue-Unsettling, declare_fanout_exchange-Unsettling,
  bind_queue-Unsettling, consume-Unsettling, publish-Unsettling, publish_to_exchange-Unsettling,
  on_received-Settling,
}
use habr_parser.Storage.Engine.{Sqlite}
use habr_parser.Storage.Store.{top_articles}
use habr_parser.Parser.Service as ParserService
use habr_parser.Storage.Service as StorageService
use habr_parser.Notifier
use habr_parser.Web
use habr_parser.Hooks.{after, Reading, storage_hooks, parser_hooks, notifier_hooks, web_hooks}

parser_ready-Unsettling :
    (config : ParserConfig) (s : Service) → Unsettling s (ParserService.on_channel_ready config s)
unfolding ParserService.on_channel_ready
parser_ready-Unsettling config s =
    consume-Unsettling _ _ _ ∙ declare_queue-Unsettling _ _ ∙ declare_queue-Unsettling _ s

notifier_ready-Unsettling :
    (config : NotifierConfig) (s : Service) → Unsettling s (Notifier.on_channel_ready config s)
unfolding Notifier.on_channel_ready
notifier_ready-Unsettling config s =
    consume-Unsettling _ _ _
    ∙ bind_queue-Unsettling _ _ _
    ∙ declare_queue-Unsettling _ _
    ∙ declare_fanout_exchange-Unsettling _ s

web_ready-Unsettling :
    (config : WebConfig) (s : Service) → Unsettling s (Web.on_channel_ready config s)
unfolding Web.on_channel_ready
web_ready-Unsettling config s =
    consume-Unsettling _ _ _
    ∙ bind_queue-Unsettling _ _ _
    ∙ declare_queue-Unsettling _ _
    ∙ declare_fanout_exchange-Unsettling _ s

module _ {F : Type 0} (fl : Double F) (j : Json F) where
  parser_handler-Unsettling :
      (dom : Dom) (config : ParserConfig) (r : Reading) (decoded : Option RawArticlesMessage)
      (s : Service)
      → Unsettling s (ParserService.handle_raw fl j dom config r.now_iso r.accepted decoded s).0
  parser_handler-Unsettling dom config r none s = refl
  parser_handler-Unsettling dom config r (some raw) s =
      if_split (λ (o : Service × Option Ack). Unsettling s o.0)
        (is_empty (ParserService.parsed_message fl j dom config r.now_iso raw).articles) (λ _. refl)
        (λ _. sent (encode_parsed j _))
    where
      sent :
          (o : Option Bytes)
          → Unsettling s (ParserService.publish_parsed fl j dom config r.now_iso r.accepted o s).0
      sent none = refl
      sent (some out) = publish-Unsettling r.accepted parsed_articles_queue out s

  pub parser_hooks-SettleLaws :
      (dom : Dom) (config : ParserConfig) (r : Reading)
      → SettleLaws r.tag (parser_hooks fl j dom config r)
  unfolding parser_hooks deliver ParserService.handle_raw_articles
  parser_hooks-SettleLaws dom config r = record {
    on_ready = parser_ready-Unsettling config;
    on_lost = λ s. refl;
    on_tick = λ s. refl;
    on_delivery = λ s.
        let handled =
          ParserService.handle_raw_articles fl j dom config r.now_iso r.accepted r.payload s in
        on_received-Settling handled.1 r.tag handled.0
        ∙ ap (λ ts. ts ++ r.tag ∷ [])
            (parser_handler-Unsettling dom config r (decode_raw j r.payload) s);
  }

  pub notifier_hooks-SettleLaws :
      (config : NotifierConfig) (first second : Notifier.Disk) (files : Notifier.Files)
      (r : Reading)
      → SettleLaws r.tag (notifier_hooks fl j config first second files r)
  unfolding notifier_hooks
  notifier_hooks-SettleLaws config first second files r = record {
    on_ready = notifier_ready-Unsettling config;
    on_lost = λ s. refl;
    on_tick = λ s. refl;
    on_delivery = on_received-Settling _ r.tag;
  }

  pub web_hooks-SettleLaws :
      (config : WebConfig) (digests : List (DigestReadyMessage F)) (r : Reading)
      → SettleLaws r.tag (web_hooks fl j config digests r)
  unfolding web_hooks
  web_hooks-SettleLaws config digests r = record {
    on_ready = web_ready-Unsettling config;
    on_lost = λ s. refl;
    on_tick = λ s. refl;
    on_delivery = on_received-Settling _ r.tag;
  }

module _ {F : Type 0} (j : Json F) (db : Sqlite F) (config : StorageConfig F) where
  storage_ready-Unsettling :
      (s : Service) → Unsettling s (StorageService.on_channel_ready j db config s)
  unfolding StorageService.on_channel_ready start_timer
  storage_ready-Unsettling s =
      consume-Unsettling _ _ _
      ∙ declare_fanout_exchange-Unsettling _ _
      ∙ declare_queue-Unsettling _ s

  storage_tick-Unsettling :
      (c : db.Conn) (r : Reading) (s : Service)
      → Unsettling s (
          after s (
            StorageService.publish_digest j db config r.accepted r.now_iso r.now_epoch r.trace_id c
              s))
  unfolding StorageService.publish_digest
  storage_tick-Unsettling c r s = ranked (top_articles j db _ _ _ _ c)
    where
      sent :
          (o : Option Bytes)
          → Unsettling s (
              after s (
                StorageService.send_digest j db config r.accepted r.now_iso r.now_epoch r.trace_id o
                  s))
      sent none = refl
      sent (some out) = publish_to_exchange-Unsettling r.accepted digest_ready_exchange out s

      ranked :
          (o : Option (List (DigestArticle F)))
          → Unsettling s (
              after s (
                StorageService.publish_top j db config r.accepted r.now_iso r.now_epoch r.trace_id o
                  s))
      ranked none = refl
      ranked (some top) =
          if_split (λ (o : Option Service). Unsettling s (after s o)) (is_empty top) (λ _. refl)
            (λ _. sent (encode_digest j _))

  pub storage_hooks-SettleLaws :
      (c : db.Conn) (r : Reading) → SettleLaws r.tag (storage_hooks j db config c r)
  unfolding storage_hooks
  storage_hooks-SettleLaws c r = record {
    on_ready = storage_ready-Unsettling;
    on_lost = λ s. refl;
    on_tick = storage_tick-Unsettling c r;
    on_delivery = on_received-Settling _ r.tag;
  }
