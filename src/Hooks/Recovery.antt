-- ===== src/Hooks/Recovery.antt =====
-- Every service gets over an outage.
use habr_parser.Base.{
  ℕ, ◌+◌, ◌≡◌, true, false, refl, ap, sym, ◌∙◌, List, [], ◌∷◌, ◌++◌, append-nil, append_assoc,
}
use habr_parser.Double.{Double}
use habr_parser.Json.{Json}
use habr_parser.Parser.Page.{Dom}
use habr_parser.Storage.Engine.{Sqlite}
use habr_parser.Messages.{
  raw_articles_queue, parsed_articles_queue, digest_ready_exchange, digest_notifier_queue,
  digest_web_queue,
}
use habr_parser.Config.{AmqpConfig}
use habr_parser.Amqp.{
  Service, Frame, queue_declare, fanout_declare, queue_bind, basic_qos, basic_consume,
  handle_connection_ready, declare_queue, declare_fanout_exchange, bind_queue, consume, start_timer,
}
use habr_parser.Amqp.Step.{Event, dispatch, Reach, next}
use habr_parser.Amqp.Recovery.{reconnect_can, reconnect_quiet, reconnect-Opened, ready_lem}
use habr_parser.Fetcher
use habr_parser.Parser.Service as ParserService
use habr_parser.Storage.Service as StorageService
use habr_parser.Notifier
use habr_parser.Web
use habr_parser.Hooks.{fetcher_hooks, storage_hooks, parser_hooks, notifier_hooks, web_hooks}
use habr_parser.Hooks.Services.{Kind, Setup, Input, hooks_of, hooks_of-HookLaws, services-Inv}

module _ {F : Type 0} (setup : Setup F) where
  -- What a service asks of each new channel: its queues and exchanges, and the consumer, of which as
  -- many deliveries are in flight as it is configured for.
  abbrev pub asks_of : Kind → List Frame
  asks_of Kind.fetching = queue_declare raw_articles_queue ∷ []
  asks_of Kind.parsing =
      queue_declare raw_articles_queue
      ∷ queue_declare parsed_articles_queue
      ∷ basic_qos setup.parser.prefetch
      ∷ basic_consume raw_articles_queue
      ∷ []
  asks_of Kind.storing =
      queue_declare parsed_articles_queue
      ∷ fanout_declare digest_ready_exchange
      ∷ basic_qos setup.storage.prefetch
      ∷ basic_consume parsed_articles_queue
      ∷ []
  asks_of Kind.notifying =
      fanout_declare digest_ready_exchange
      ∷ queue_declare digest_notifier_queue
      ∷ queue_bind digest_notifier_queue digest_ready_exchange
      ∷ basic_qos setup.notifier.prefetch
      ∷ basic_consume digest_notifier_queue
      ∷ []
  asks_of Kind.showing =
      fanout_declare digest_ready_exchange
      ∷ queue_declare digest_web_queue
      ∷ queue_bind digest_web_queue digest_ready_exchange
      ∷ basic_qos setup.web.prefetch
      ∷ basic_consume digest_web_queue
      ∷ []

  abbrev Timer : ℕ → Service → Type 0
  Timer seconds s =
      (s.timer_armed ≡ true) × (s.timer_pending ≡ true) × (s.timer_interval_seconds ≡ seconds)

  -- The timer runs again in the services that have one, and the fetcher is also due at once.
  abbrev pub Ticks : Kind → Service → Service → Type 0
  Ticks Kind.fetching s t = Timer setup.fetcher.interval_seconds t × (t.ticks_due ≡ s.ticks_due + 1)
  Ticks Kind.storing s t =
      Timer setup.storage.digest_interval_seconds t × (t.ticks_due ≡ s.ticks_due)
  Ticks _ s t = t.ticks_due ≡ s.ticks_due

  -- A service that works again, after a state with the outage.
  pub record Recovered (k : Kind) (s t : Service) : Type 0 where
    pub channel_ready : t.channel_ready ≡ true
    pub attempts : t.reconnect_attempts ≡ 0
    pub up : t.shutting_down ≡ false
    pub no_reconnect : t.reconnect_scheduled ≡ false
    pub asks : t.sent ≡ s.sent ++ asks_of k
    pub ticks : Ticks k s t

-- Frames that are sent one by one.
abbrev one_by_one : List Frame → List Frame → List Frame
one_by_one sent [] = sent
one_by_one sent (f ∷ fs) = one_by_one (sent ++ f ∷ []) fs

one_by_one-append : (sent fs : List Frame) → one_by_one sent fs ≡ sent ++ fs
one_by_one-append sent [] = sym (append-nil sent)
one_by_one-append sent (f ∷ fs) =
    one_by_one-append (sent ++ f ∷ []) fs ∙ append_assoc sent (f ∷ []) fs

module _ {F : Type 0} (fl : Double F) (j : Json F) (dom : Dom) (db : Sqlite F)
    (setup : Setup F) where
  -- On a new channel that gets ready the service asks for all, and starts its timer.
  ready_asks :
      (k : Kind) (i : Input F db.Conn) (s : Service)
      → s.channel ≡ true
      → let t = dispatch (hooks_of fl j dom db setup k i) Event.ready s in
        (t.sent ≡ one_by_one s.sent (asks_of setup k)) × Ticks setup k s t
  unfolding dispatch handle_connection_ready fetcher_hooks storage_hooks parser_hooks notifier_hooks
      web_hooks Fetcher.on_channel_ready ParserService.on_channel_ready
      StorageService.on_channel_ready Notifier.on_channel_ready Web.on_channel_ready declare_queue
      declare_fanout_exchange bind_queue consume start_timer
  ready_asks Kind.fetching i s e = rw e (refl, ((refl, refl, refl), refl))
  ready_asks Kind.parsing i s e = rw e (refl, refl)
  ready_asks Kind.storing i s e = rw e (refl, ((refl, refl, refl), refl))
  ready_asks Kind.notifying i s e = rw e (refl, refl)
  ready_asks Kind.showing i s e = rw e (refl, refl)

  Ticks-due :
      (k : Kind) (s s' t : Service)
      → s.ticks_due ≡ s'.ticks_due
      → Ticks setup k s t
      → Ticks setup k s' t
  Ticks-due Kind.fetching _ _ _ e (timer, due) = (timer, due ∙ ap (λ n. n + 1) e)
  Ticks-due Kind.parsing _ _ _ e due = due ∙ e
  Ticks-due Kind.storing _ _ _ e (timer, due) = (timer, due ∙ e)
  Ticks-due Kind.notifying _ _ _ e due = due ∙ e
  Ticks-due Kind.showing _ _ _ e due = due ∙ e

  -- In every reachable state of each service in which a reconnect is scheduled and the service does
  -- not shut down, the reconnect can come up; if it opens, the channel can get ready; and then the
  -- service works again: its attempts are counted from 0 and no reconnect is scheduled; on the new
  -- channel it has asked, in this order and for nothing else, for the queues and exchanges that it
  -- uses and for its consumer; and the timer of the fetcher and of the storage runs at the configured
  -- interval, with a tick due at once in the fetcher alone.
  pub services-Recovered :
      (k : Kind) (config : AmqpConfig) (i : Input F db.Conn) {s : Service}
      → Reach (hooks_of fl j dom db setup k) config s
      → s.reconnect_scheduled ≡ true
      → s.shutting_down ≡ false
      → let h = hooks_of fl j dom db setup k i in
        let t = dispatch h Event.ready (dispatch h (Event.reconnect true) s) in
        Reach (hooks_of fl j dom db setup k) config t × Recovered setup k s t
  services-Recovered k config i {s} r scheduled up =
      let h = hooks_of fl j dom db setup k i in
      let opening = dispatch h (Event.reconnect true) s in
      let can = reconnect_can s (services-Inv fl j dom db setup k config r) scheduled in
      let opened = reconnect-Opened h s up in
      let (unsent, undue) = reconnect_quiet h s up in
      let (asks, ticks) = ready_asks k i opening opened.channel in
      let (on, zero_attempts, same_up, same_free) =
        ready_lem h (hooks_of-HookLaws fl j dom db setup k i) opening in
      (
        next (next r i (Event.reconnect true) can) i Event.ready (opened.channel, opened.free),
        record {
          channel_ready = on;
          attempts = zero_attempts;
          up = same_up ∙ opened.up;
          no_reconnect = same_free ∙ opened.free;
          asks =
              asks
              ∙ one_by_one-append opening.sent (asks_of setup k)
              ∙ ap (λ sent. sent ++ asks_of setup k) unsent;
          ticks = Ticks-due k opening s _ undue ticks;
        },
      )
