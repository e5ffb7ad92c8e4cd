-- ===== src/Hooks.antt =====
-- What the five services give to the skeleton: their virtual members and the handlers of deliveries, of
-- services/*/src/*_service.cpp and services/fetcher/src/fetcher.cpp. None overrides
-- `OnConnectionLost`, and only the fetcher and the storage override `OnTick`.
pub mod Laws
pub mod Topology
pub mod Services
pub mod Settled
pub mod Runs
pub mod Recovery
mod Tests
use habr_parser.Base.{ℕ, List, Bool, Option, none, some, Bytes, ℤ}
use habr_parser.Double.{Double}
use habr_parser.Double.{Double}
use habr_parser.Json.{Json}
use habr_parser.Messages.{DigestReadyMessage}
use habr_parser.Parser.Page.{Dom}
use habr_parser.Config.{FetcherConfig, ParserConfig, StorageConfig, NotifierConfig, WebConfig}
use habr_parser.Amqp.{Service, Hooks, on_received, deliver}
use habr_parser.Storage.Engine.{Sqlite}
use habr_parser.Fetcher
use habr_parser.Parser.Service as ParserService
use habr_parser.Storage.Service as StorageService
use habr_parser.Notifier
use habr_parser.Web

-- An exception from a tick leaves the event loop and ends the program. No event follows it, so that the
-- state here is of no account; Entry/Exit has the process that ends so.
abbrev pub after : Service → Option Service → Service
after s none = s
after s (some s') = s'

-- What an event reads: the answer to its publish, the clock, a new trace id, and a delivery.
pub record Reading : Type 0 where
  pub accepted : Bool
  pub now_iso : Bytes
  pub later_iso : Bytes
  pub now_epoch : ℤ
  pub trace_id : Bytes
  pub tag : ℕ
  pub payload : Bytes

module _ {F : Type 0} (j : Json F) where
  pub fetcher_hooks : FetcherConfig → Fetcher.Curl → Reading → Hooks
  fetcher_hooks config curl r = record {
    on_channel_ready = Fetcher.on_channel_ready config;
    on_connection_lost = λ s. s;
    on_tick =
        λ s. after s (Fetcher.on_tick j config r.accepted r.now_iso r.later_iso r.trace_id curl s);
    -- it consumes nothing
    on_delivery = λ s. s;
  }

  pub storage_hooks : (db : Sqlite F) → StorageConfig F → db.Conn → Reading → Hooks
  storage_hooks db config c r = record {
    on_channel_ready = StorageService.on_channel_ready j db config;
    on_connection_lost = λ s. s;
    on_tick = λ s.
        after s (
          StorageService.publish_digest j db config r.accepted r.now_iso r.now_epoch r.trace_id c
            s);
    on_delivery =
        on_received (StorageService.handle_parsed_articles j db r.now_iso r.now_epoch r.payload c).1
          r.tag;
  }

module _ {F : Type 0} (fl : Double F) (j : Json F) where
  pub parser_hooks : Dom → ParserConfig → Reading → Hooks
  parser_hooks dom config r = record {
    on_channel_ready = ParserService.on_channel_ready config;
    on_connection_lost = λ s. s;
    on_tick = λ s. s;
    on_delivery =
        deliver (ParserService.handle_raw_articles fl j dom config r.now_iso r.accepted) r.tag
          r.payload;
  }

  pub notifier_hooks :
      NotifierConfig → Notifier.Disk → Notifier.Disk → Notifier.Files → Reading → Hooks
  notifier_hooks config first second files r = record {
    on_channel_ready = Notifier.on_channel_ready config;
    on_connection_lost = λ s. s;
    on_tick = λ s. s;
    on_delivery =
        on_received (Notifier.handle_digest_ready fl j config first second r.payload files).1 r.tag;
  }

  pub web_hooks : WebConfig → List (DigestReadyMessage F) → Reading → Hooks
  web_hooks config digests r = record {
    on_channel_ready = Web.on_channel_ready config;
    on_connection_lost = λ s. s;
    on_tick = λ s. s;
    on_delivery = on_received (Web.handle_digest_ready fl j config r.payload digests).1 r.tag;
  }
