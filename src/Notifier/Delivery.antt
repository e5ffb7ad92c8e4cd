-- ===== src/Notifier/Delivery.antt =====
-- What becomes of a digest that the notifier receives.
use habr_parser.Base.{
  ℕ, ◌≡◌, ◌≢◌, refl, ap, sym, ◌∙◌, [], ◌∷◌, Bool, true, false, Option, none, some, Bytes, arith,
  utf8, if◌then◌else◌,
}
use habr_parser.Double.{Double}
use habr_parser.Json.{Json}
use habr_parser.Messages.{DigestReadyMessage}
use habr_parser.Codec.{decode_digest}
use habr_parser.Config.{NotifierConfig}
use habr_parser.Amqp.{Ack}
use habr_parser.Notifier.{
  Files, Disk, on_disk, render_digest_markdown, digest_path, latest_path, then_latest, write_digest,
  handle_digest_ready, temporary_of,
}
use habr_parser.Notifier.Token.{join_path_injective, join_path-append}
use habr_parser.Notifier.Atomic.{
  Effect, write_file_atomically-Effect, Good, write_file_atomically-Good,
}

abbrev first_byte : Bytes → ℕ
first_byte [] = 0
first_byte (c ∷ s) = c

-- A digest's file is neither `latest.md` nor its temporary file, and the other way round.
digest_path_ne :
    (config : NotifierConfig) (digest_id : Bytes)
    → (digest_path config digest_id ≢ latest_path config)
      × (digest_path config digest_id ≢ temporary_of (latest_path config))
      × (latest_path config ≢ temporary_of (digest_path config digest_id))
unfolding utf8
digest_path_ne config digest_id = (
  λ e. apart (join_path_injective _ _ _ e),
  λ e. apart (join_path_injective _ _ _ (e ∙ sym (join_path-append config.output_dir _ _))),
  λ e. apart (sym (join_path_injective _ _ _ (e ∙ sym (join_path-append config.output_dir _ _)))),
)
  where
    apart : {a b : Bytes} → b'd' ∷ a ≡ b'l' ∷ b → ⊥
    apart e = let e' = ap first_byte e in absurd (omega (arith, e'))

module _ {F : Type 0} (fl : Double F) (j : Json F) (config : NotifierConfig)
    (first second : Disk) where
  -- The decisions, each with what it says of the files.
  pub data Outcome (payload : Bytes) (files files' : Files) : Option Ack → Type 0 where
    -- A payload that is no digest is dropped.
    malformed :
        decode_digest j payload ≡ none
        → files' ≡ files
        → Outcome payload files files' (some Ack.reject)
    -- Both files have the digest, short only of what closing them lost.
    saved :
        (digest : DigestReadyMessage F)
        → decode_digest j payload ≡ some digest
        → files' (digest_path config digest.digest_id)
          ≡ some (on_disk (render_digest_markdown fl digest) first.lost)
        → files' (latest_path config)
          ≡ some (on_disk (render_digest_markdown fl digest) second.lost)
        → Outcome payload files files' (some Ack.ack)
    -- A write failed, and `latest.md` is the one from before.
    failed :
        (digest : DigestReadyMessage F)
        → decode_digest j payload ≡ some digest
        → files' (latest_path config) ≡ files (latest_path config)
        → Outcome payload files files' (some Ack.requeue)

  abbrev decision : Files × Bool → Files × Option Ack
  decision (fs, done) = (fs, some (if done then Ack.ack else Ack.requeue))

  latest-Outcome :
      (payload : Bytes) (digest : DigestReadyMessage F) (files fs : Files) (r : Files × Bool)
      → decode_digest j payload ≡ some digest
      → fs (digest_path config digest.digest_id)
        ≡ some (on_disk (render_digest_markdown fl digest) first.lost)
      → fs (latest_path config) ≡ files (latest_path config)
      → Effect second (latest_path config) (render_digest_markdown fl digest) fs r
      → let t = decision r in Outcome payload files t.0 t.1
  latest-Outcome payload digest files fs (fs', true) d own same (done, others) =
      let (ne, ne', _) = digest_path_ne config digest.digest_id in
      saved digest d (others _ ne ne' ∙ own) done
  latest-Outcome payload digest files fs (fs', false) d own same (kept, others) =
      failed digest d (kept ∙ same)

  then_latest-Outcome :
      (payload : Bytes) (digest : DigestReadyMessage F) (files : Files) (r : Files × Bool)
      → decode_digest j payload ≡ some digest
      → Effect first
          (digest_path config digest.digest_id)
          (render_digest_markdown fl digest)
          files
          r
      → let t = then_latest second (latest_path config) (render_digest_markdown fl digest) r in
        Outcome payload files t.0 t.1
  then_latest-Outcome payload digest files (fs, false) d (same, others) =
      let (ne, _, ne') = digest_path_ne config digest.digest_id in
      failed digest d (others _ (λ e. ne (sym e)) ne')
  then_latest-Outcome payload digest files (fs, true) d (done, others) =
      let (ne, _, ne') = digest_path_ne config digest.digest_id in
      latest-Outcome payload digest files fs _ d done (others _ (λ e. ne (sym e)) ne') (
        write_file_atomically-Effect second (latest_path config) (render_digest_markdown fl digest)
          fs)

  write_digest-Outcome :
      (payload : Bytes) (files : Files) (decoded : Option (DigestReadyMessage F))
      → decode_digest j payload ≡ decoded
      → let r = write_digest fl j config first second decoded files in Outcome payload files r.0 r.1
  write_digest-Outcome payload files none d = malformed d refl
  write_digest-Outcome payload files (some digest) d =
      then_latest-Outcome payload digest files _ d (
        write_file_atomically-Effect first (digest_path config digest.digest_id)
          (render_digest_markdown fl digest) files)

  -- Every delivery of a digest is decided, never by an exception: dropped when malformed,
  -- acknowledged only when both files have it, and queued again when a write failed, where the
  -- latest digest is still the one from before.
  pub handle_digest_ready-Outcome :
      (payload : Bytes) (files : Files)
      → let r = handle_digest_ready fl j config first second payload files in
        Outcome payload files r.0 r.1
  unfolding handle_digest_ready
  handle_digest_ready-Outcome payload files =
      write_digest-Outcome payload files (decode_digest j payload) refl

  then_latest-Good :
      (markdown : Bytes) (r : Files × Bool)
      → Good second
      → r.1 ≡ true
      → (then_latest second (latest_path config) markdown r).1 ≡ some Ack.ack
  then_latest-Good markdown (files, true) g e =
      rw (write_file_atomically-Good second (latest_path config) markdown files g) refl
  then_latest-Good markdown (files, false) g e = cc

  -- Where both writes go through, a digest is acknowledged.
  pub handle_digest_ready-Good :
      (payload : Bytes) (m : DigestReadyMessage F) (files : Files)
      → Good first
      → Good second
      → decode_digest j payload ≡ some m
      → (handle_digest_ready fl j config first second payload files).1 ≡ some Ack.ack
  unfolding handle_digest_ready
  handle_digest_ready-Good payload m files g g' d = rw d (
      then_latest-Good (render_digest_markdown fl m) _ g' (
        write_file_atomically-Good first (digest_path config m.digest_id)
          (render_digest_markdown fl m) files g))
