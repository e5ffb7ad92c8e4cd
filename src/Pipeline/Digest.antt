-- ===== src/Pipeline/Digest.antt =====
-- One digest on its way from the tick of the storage (services/storage/src/storage_service.cpp) to the
-- page of the web service (services/web/src/web_service.cpp) and the files of the notifier
-- (services/notifier/src/notifier_service.cpp).
use mathlib.Core.List.{append_cancel_left, append-nil}
use mathlib.Core.Option.{some-injective}
use mathlib.Core.Path.{subst}
use habr_parser.Base.{
  ◌^◌, ◌<◌, ◌≡◌, sym, ◌∙◌, List, [], ◌∷◌, ◌++◌, Bool, ℤ, Option, some, Bytes, inl, inr, take, All,
}
use habr_parser.Double.{Double}
use habr_parser.Json.{Json, JsonLaws}
use habr_parser.Messages.{DigestReadyMessage, digest_ready_exchange}
use habr_parser.Codec.{decode_digest}
use habr_parser.Codec.Finite.{FiniteScore}
use habr_parser.Config.{StorageConfig, NotifierConfig, WebConfig}
use habr_parser.Amqp.{Service, Ack, basic_publish}
use habr_parser.Storage.Engine.{Sqlite, SqliteLaws}
use habr_parser.Storage.Service.{publish_digest}
use habr_parser.Storage.Service.Publish.{ranked, IsDigest, publish_digest-Sent}
use habr_parser.Web
use habr_parser.Web.History.{handle_digest_ready-take}
use habr_parser.Notifier
use habr_parser.Notifier.{Files, Disk, on_disk, render_digest_markdown, digest_path, latest_path}
use habr_parser.Notifier.Delivery.{
  Outcome, malformed, saved, failed, handle_digest_ready-Outcome, handle_digest_ready-Good,
}
use habr_parser.Notifier.Atomic.{Good}

module _ {F : Type 0} (fl : Double F) (j : Json F) where
  -- What both files hold behind an acknowledged delivery of a digest.
  Outcome-files :
      (config : NotifierConfig) (first second : Disk) (payload : Bytes) (files files' : Files)
      (o : Option Ack) (m : DigestReadyMessage F)
      → Outcome fl j config first second payload files files' o
      → o ≡ some Ack.ack
      → decode_digest j payload ≡ some m
      → (files' (digest_path config m.digest_id)
          ≡ some (on_disk (render_digest_markdown fl m) first.lost))
        × (files' (latest_path config) ≡ some (on_disk (render_digest_markdown fl m) second.lost))
  Outcome-files config first second payload files files' o m (malformed _ _) e d = absurd (cc e)
  Outcome-files config first second payload files files' o m (failed _ _ _) e d = absurd (cc e)
  Outcome-files config first second payload files files' o m (saved n d' own latest) e d =
      subst
        (λ (x : DigestReadyMessage F).
          (files' (digest_path config x.digest_id)
            ≡ some (on_disk (render_digest_markdown fl x) first.lost))
          × (files' (latest_path config)
              ≡ some (on_disk (render_digest_markdown fl x) second.lost)))
        (some-injective _ _ (sym d' ∙ d)) (own, latest)

module _ {F : Type 0} (fl : Double F) (j : Json F) (laws : JsonLaws j) (db : Sqlite F)
    (db_laws : SqliteLaws fl db) (config : StorageConfig F)
    (fits : config.digest_period_hours < 2 ^ 32) (accepted : Bool) (now_iso : Bytes) (now_epoch : ℤ)
    (trace_id : Bytes) where
  -- With libraries that meet the laws, finite scores of the ranked rows and a period below 2^32, a
  -- digest that a tick of the storage sent is that of the ranked rows of its table, with the ids of the tick; a web service
  -- that gets it shows it before all others; and a notifier whose two writes go through acknowledges
  -- it and has its Markdown in both files, short only of what closing them lost.
  pub publication_arrives :
      (c : db.Conn) (s : Service) {s' : Service} (out : Bytes)
      → All (FiniteScore j laws) (ranked fl j db config now_iso now_epoch trace_id c)
      → publish_digest j db config accepted now_iso now_epoch trace_id c s ≡ some s'
      → s'.sent ≡ s.sent ++ basic_publish digest_ready_exchange [] out ∷ []
      → (web : WebConfig) (digests : List (DigestReadyMessage F)) (notifier : NotifierConfig)
        (first second : Disk) (files : Files)
      → Good first
      → Good second
      → let r = Notifier.handle_digest_ready fl j notifier first second out files in
        (m : DigestReadyMessage F) × IsDigest fl j db config now_iso now_epoch trace_id
          (ranked fl j db config now_iso now_epoch trace_id c)
          m
        × (Web.handle_digest_ready fl j web out digests
            ≡ (take web.history_size (m ∷ digests), some Ack.ack))
        × (r.1 ≡ some Ack.ack)
        × (r.0 (digest_path notifier now_iso)
            ≡ some (on_disk (render_digest_markdown fl m) first.lost))
        × (r.0 (latest_path notifier) ≡ some (on_disk (render_digest_markdown fl m) second.lost))
  publication_arrives c s {s'} out finite h e web digests notifier first second files good good' =
      elim (publish_digest-Sent fl j laws db db_laws config fits accepted now_iso now_epoch trace_id
        c s finite h) [
          | inl (same, _) ↦
              absurd (cc (append_cancel_left s.sent _ _ (append-nil s.sent ∙ sym same ∙ e)))
          | inr (out', e', m, d', digest) ↦
              let out_out : out' ≡ out = cc (append_cancel_left s.sent _ _ (sym e' ∙ e)) in
              let d = subst (λ t. decode_digest j t ≡ some m) out_out d' in
              let ack =
                handle_digest_ready-Good fl j notifier first second out m files good good' d in
              let (own, latest) =
                Outcome-files fl j notifier first second out files _ _ m
                  (handle_digest_ready-Outcome fl j notifier first second out files) ack d in
              (
                m,
                digest,
                handle_digest_ready-take fl j web out m digests d,
                ack,
                subst
                    (λ id.
                      (Notifier.handle_digest_ready fl j notifier first second out files).0
                        (digest_path notifier id)
                      ≡ some (on_disk (render_digest_markdown fl m) first.lost))
                    digest.digest_id own,
                latest,
              )
        ]
