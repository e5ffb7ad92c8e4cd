-- ===== src/Notifier/Run.antt =====
-- What readers find in `latest.md`, in any state of the notifier.
use habr_parser.Base.{◌≡◌, refl, ap, sym, ◌∙◌, ◌⊎◌, inl, inr, List, [], ◌∷◌, Option, some, Bytes}
use mathlib.Core.Path.{subst}
use habr_parser.Double.{Double}
use habr_parser.Json.{Json}
use habr_parser.Messages.{DigestReadyMessage}
use habr_parser.Codec.{decode_digest}
use habr_parser.Parser.Page.{Dom}
use habr_parser.Storage.Engine.{Sqlite}
use habr_parser.Config.{AmqpConfig}
use habr_parser.Amqp.{Service, Ack}
use habr_parser.Amqp.Run.{Run-keep_all, keep_all}
use habr_parser.Hooks.Services.{Kind, Setup, Input, hooks_of}
use habr_parser.Hooks.Runs.{RunOf, keep, deliveries}
use habr_parser.Notifier.{Files, on_disk, render_digest_markdown, latest_path}
use habr_parser.Notifier.Delivery.{Outcome, malformed, saved, failed, handle_digest_ready-Outcome}

-- One of the elements has the property.
abbrev pub Any : {A : Type 0} → (A → Type 0) → List A → Type 0
Any P [] = ⊥
Any P (x ∷ xs) = P x ⊎ Any P xs

module _ {F : Type 0} (fl : Double F) (j : Json F) (dom : Dom) (db : Sqlite F)
    (setup : Setup F) where
  -- The content is the digest of this delivery, short only of what closing the file lost.
  abbrev pub Written : Option Bytes → Input F db.Conn → Type 0
  Written content i =
      (digest : DigestReadyMessage F) × (decode_digest j i.reading.payload ≡ some digest)
      × (content ≡ some (on_disk (render_digest_markdown fl digest) i.second.lost))

  abbrev latest : Files → Option Bytes
  latest files = files (latest_path setup.notifier)

  Outcome-latest :
      (i : Input F db.Conn) (files files' : Files) (o : Option Ack)
      → Outcome fl j setup.notifier i.first i.second i.reading.payload files files' o
      → (latest files' ≡ latest files) ⊎ Written (latest files') i
  Outcome-latest i files files' _ (malformed _ e) = inl (ap latest e)
  Outcome-latest i files files' _ (saved digest d _ e) = inr (digest, d, e)
  Outcome-latest i files files' _ (failed _ _ e) = inl e

  keep_all-latest :
      (is : List (Input F db.Conn)) (files : Files)
      → let o = latest (keep_all (keep fl j dom db setup Kind.notifying) is files) in
        (o ≡ latest files) ⊎ Any (Written o) is
  keep_all-latest [] files = inl refl
  keep_all-latest (i ∷ is) files = elim (keep_all-latest is _) [
    | inr h ↦ inr (inr h)
    | inl e ↦
        elim (Outcome-latest i files _ _ (
          handle_digest_ready-Outcome fl j setup.notifier i.first i.second i.reading.payload
            files)) [ inl e' ↦ inl (e ∙ e') | inr (digest, d, w) ↦ inr (inl (digest, d, e ∙ w)) ]
  ]

  -- In every run of the notifier, over any events in any order, `latest.md` is what it was at the
  -- start or the whole Markdown of one delivered digest, short only of what closing the file lost:
  -- never a mixture, whatever fails.
  pub notifier_run :
      (config : AmqpConfig) (first : Files) {s : Service} {files : Files}
      (r : RunOf fl j dom db setup Kind.notifying config first s files)
      → (latest files ≡ latest first)
        ⊎ Any (Written (latest files)) (deliveries fl j dom db setup Kind.notifying config first r)
  notifier_run config first {files = files} r =
      let kept = Run-keep_all (hooks_of fl j dom db setup Kind.notifying) _ _ config first r in
      let is = deliveries fl j dom db setup Kind.notifying config first r in
      subst (λ (fs : Files). (latest fs ≡ latest first) ⊎ Any (Written (latest fs)) is) (sym kept)
        (keep_all-latest is first)
