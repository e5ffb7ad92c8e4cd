-- ===== src/Entry/Exit.antt =====
-- The exit code of a process that is asked to end.
use habr_parser.Base.{
  ◌-◌, ◌≡◌, ◌≢◌, ◌⊎◌, inl, inr, refl, ap, ◌∙◌, true, false, Option, none, some, Bytes, Bool-cases,
}
use habr_parser.Double.{Double}
use habr_parser.Json.{Json}
use habr_parser.Parser.Page.{Dom}
use habr_parser.Storage.Engine.{Sqlite}
use habr_parser.Config.{AmqpConfig}
use habr_parser.Amqp.{Service}
use habr_parser.Amqp.Step.{Event, dispatch, CanHappen, Reach}
use habr_parser.Amqp.Ending.{Steps, Steps-Lasting, signal_ends}
use habr_parser.Fetcher
use habr_parser.Storage.Service as StorageService
use habr_parser.Web
use habr_parser.Hooks.Services.{Kind, Setup, Input, hooks_of, hooks_of-HookLaws}
use habr_parser.Entry.{
  World, Step, attempt, service_new, code_of, main, fetcher_main, parser_main, storage_main,
  notifier_main, web_main,
}

-- The code is that of the `try` block.
main-attempt : (w : World) (k : Kind) → (main w k).1 ≡ (attempt w k (service_new w k)).1
unfolding main fetcher_main parser_main storage_main notifier_main web_main
main-attempt w Kind.fetching = refl
main-attempt w Kind.parsing = refl
main-attempt w Kind.storing = refl
main-attempt w Kind.notifying = refl
main-attempt w Kind.showing = refl

attempt-done :
    (w : World) (k : Kind) (o : Step) → o.1 ≡ true → (attempt w k o).1 ≡ code_of w w.ended
attempt-done w k (calls, true) e = refl
attempt-done w k (calls, false) e = cc

attempt-thrown : (w : World) (k : Kind) (o : Step) → o.1 ≡ false → (attempt w k o).1 ≡ 1
attempt-thrown w k (calls, true) e = cc
attempt-thrown w k (calls, false) e = refl

module _ {F : Type 0} (fl : Double F) (j : Json F) (dom : Dom) (db : Sqlite F)
    (setup : Setup F) where
  -- A callback that lets an exception out of the loop: a tick that is due, of the fetcher on a page or
  -- of the storage on a digest that cannot be dumped, and a request for such a digest. What the
  -- handlers of deliveries throw is caught.
  pub data Throws (i : Input F db.Conn) (t : Service) : Kind → Type 0 where
    by_timer :
        CanHappen Event.timer t
        → Fetcher.on_tick j setup.fetcher i.reading.accepted i.reading.now_iso i.reading.later_iso
            i.reading.trace_id i.curl t
          ≡ none
        → Throws i t Kind.fetching
    by_first_tick :
        CanHappen Event.first_tick t
        → Fetcher.on_tick j setup.fetcher i.reading.accepted i.reading.now_iso i.reading.later_iso
            i.reading.trace_id i.curl
            (record t { ticks_due = t.ticks_due - 1 })
          ≡ none
        → Throws i t Kind.fetching
    by_digest :
        CanHappen Event.timer t
        → StorageService.publish_digest j db setup.storage i.reading.accepted i.reading.now_iso
            i.reading.now_epoch i.reading.trace_id i.conn t
          ≡ none
        → Throws i t Kind.storing
    by_request :
        (path : Option Bytes)
        → Web.handle_http_request fl j t.channel_ready i.digests path ≡ none
        → Throws i t Kind.showing

  -- How the event loop is left in a state: its exit was requested, or a callback throws.
  pub data Leaves (k : Kind) (t : Service) : Option Service → Type 0 where
    requested : t.exit_requested ≡ true → Leaves k t (some t)
    thrown : (i : Input F db.Conn) → Throws i t k → Leaves k t none

  Throws-kind :
      {i : Input F db.Conn} {t : Service} {k : Kind}
      → Throws i t k
      → (k ≢ Kind.parsing) × (k ≢ Kind.notifying)
  Throws-kind (by_timer _ _) = ((λ e. cc), (λ e. cc))
  Throws-kind (by_first_tick _ _) = ((λ e. cc), (λ e. cc))
  Throws-kind (by_digest _ _) = ((λ e. cc), (λ e. cc))
  Throws-kind (by_request _ _) = ((λ e. cc), (λ e. cc))

  -- The exit code, by what became of the construction and of the loop.
  abbrev pub ExitsWith : World → Kind → Service → Type 0
  ExitsWith w k t =
      (((service_new w k).1 ≡ false) × ((main w k).1 ≡ 1))
      ⊎ (((service_new w k).1 ≡ true) × (w.ended ≡ some t) × ((main w k).1 ≡ 0))
      ⊎ (((service_new w k).1 ≡ true)
          × (w.ended ≡ none)
          × (k ≢ Kind.parsing)
          × (k ≢ Kind.notifying)
          × ((main w k).1 ≡ 1))

  Leaves-ExitsWith :
      (w : World) (k : Kind) {t : Service} (o : Option Service)
      → (service_new w k).1 ≡ true
      → t.exit_code ≡ 0
      → w.ended ≡ o
      → Leaves k t o
      → ExitsWith w k t
  Leaves-ExitsWith w k o done zero_code e (requested _) =
      let code = main-attempt w k ∙ attempt-done w k (service_new w k) done ∙ ap (code_of w) e in
      inr (inl (done, e, code ∙ zero_code))
  Leaves-ExitsWith w k o done zero_code e (thrown i throws) =
      let code = main-attempt w k ∙ attempt-done w k (service_new w k) done ∙ ap (code_of w) e in
      let (no_parser, no_notifier) = Throws-kind throws in
      inr (inr (done, e, no_parser, no_notifier, code))

  -- If SIGTERM or SIGINT arrives in any reachable state in which the service does not shut down yet,
  -- then, whatever events follow until the loop is left, no connection is constructed any more. The
  -- process exits with code 0 if its loop ends because the exit was requested; with code 1 if its
  -- construction threw, or if before that a tick of the fetcher or of the storage, or a request to the
  -- web service throws.
  pub main_signalled :
      (w : World) (k : Kind) (config : AmqpConfig) (i : Input F db.Conn) {s t : Service}
      → Reach (hooks_of fl j dom db setup k) config s
      → s.shutting_down ≡ false
      → let stopped = dispatch (hooks_of fl j dom db setup k i) Event.signal s in
        Steps (hooks_of fl j dom db setup k) stopped t
        → Leaves k t w.ended
        → ExitsWith w k t × (t.connects ≡ s.connects)
  main_signalled w k config i {t} r up steps leaves =
      let laws = hooks_of-HookLaws fl j dom db setup k in
      let (down, zero_code, same) = signal_ends (hooks_of fl j dom db setup k i) _ up in
      let lasting = Steps-Lasting (hooks_of fl j dom db setup k) laws steps down in
      (
        elim (Bool-cases (service_new w k).1) [
          | inl e ↦ Leaves-ExitsWith w k w.ended e (lasting.code ∙ zero_code) refl leaves
          | inr e ↦ inl (e, main-attempt w k ∙ attempt-thrown w k (service_new w k) e)
        ],
        lasting.connects ∙ same,
      )
