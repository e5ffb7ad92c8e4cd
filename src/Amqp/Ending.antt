-- ===== src/Amqp/Ending.antt =====
-- How a service ends: the exit code, and what no event undoes once the service shuts down.
use habr_parser.Base.{◌-◌, ◌≤◌, ◌<◌, ◌≡◌, Bool, true, false, arith, if_split, ◌∙◌}
use habr_parser.Config.{AmqpConfig}
use habr_parser.Amqp.{
  Service, Hooks, init, start, connect, handle_connection_ready, handle_connection_failure,
  handle_detached, do_reconnect, stop, stop_timer, schedule_reconnect,
}
use habr_parser.Amqp.Step.{Event, dispatch, CanHappen, Reach, started, next}
use habr_parser.Amqp.Invariant.{HookLaws}

pub record Ending (s : Service) : Type 0 where
  pub exit_code : s.exit_code ≤ 1
  pub running : s.shutting_down ≡ false → s.exit_code ≡ 0
  pub asked : s.exit_requested ≡ true → s.shutting_down ≡ true
  pub forced : 0 < s.forced_exits_due → s.shutting_down ≡ true

-- What lasts from a state that shuts down on.
pub record Lasting (s t : Service) : Type 0 where
  pub down : t.shutting_down ≡ true
  pub code : t.exit_code ≡ s.exit_code
  pub connects : t.connects ≡ s.connects
  pub asked : s.exit_requested ≡ true → t.exit_requested ≡ true

schedule_reconnect-Ending :
    (s : Service) → Ending s → s.shutting_down ≡ false → Ending (schedule_reconnect s)
unfolding schedule_reconnect stop_timer
schedule_reconnect-Ending s v up = ground arith

stop-Ending : (s : Service) → Ending s → Ending (stop 0 s)
unfolding stop stop_timer
stop-Ending s v = ground arith

off-Ending : (s : Service) → Ending s → Ending (record s { channel_ready = false })
off-Ending s v = ground arith

stop_timer-Ending : (s : Service) → Ending s → Ending (stop_timer s)
unfolding stop_timer
stop_timer-Ending s v = ground arith

stop_timer_up : (s : Service) → (stop_timer s).shutting_down ≡ s.shutting_down
unfolding stop_timer
stop_timer_up s = ground arith

module _ (h : Hooks) (laws : HookLaws h) where
  lost-Ending : (s : Service) → Ending s → Ending (h.on_connection_lost s)
  lost-Ending s v = ground (arith, laws.lost_modest s)

  failure-Ending : (s : Service) → Ending s → Ending (handle_connection_failure h s)
  unfolding handle_connection_failure
  failure-Ending s v =
      let off = stop_timer (record s { channel_ready = false }) in
      if_split Ending s.shutting_down (λ _. v)
        (λ up.
          if_split (λ t. Ending (schedule_reconnect t)) s.channel_ready
            (λ _.
              schedule_reconnect-Ending _ (lost-Ending off (stop_timer-Ending _ (off-Ending s v)))
                ((laws.lost_modest off).shutting_down ∙ stop_timer_up _ ∙ up))
            (λ _. schedule_reconnect-Ending _ (off-Ending s v) up))

  connect-Ending : (opens : Bool) (s : Service) → Ending s → Ending (connect h opens s)
  unfolding connect
  connect-Ending true s v = ground arith
  connect-Ending false s v = failure-Ending _ (ground arith)

  do_reconnect-Ending : (opens : Bool) (s : Service) → Ending s → Ending (do_reconnect h opens s)
  unfolding do_reconnect
  do_reconnect-Ending opens s v =
      if_split Ending s.shutting_down (λ _. ground arith)
        (λ _. connect-Ending opens _ (ground arith))

  ready-Ending : (s : Service) → Ending s → Ending (handle_connection_ready h s)
  unfolding handle_connection_ready
  ready-Ending s v =
      ground (arith, laws.ready_modest (record s { channel_ready = true; reconnect_attempts = 0 }))

  dispatch-Ending : (e : Event) (s : Service) → CanHappen e s → Ending s → Ending (dispatch h e s)
  unfolding dispatch handle_detached
  dispatch-Ending Event.ready s c v = ready-Ending s v
  dispatch-Ending Event.failed s c v = failure-Ending s v
  dispatch-Ending Event.detached s c v = ground arith
  dispatch-Ending Event.signal s c v = stop-Ending s v
  dispatch-Ending Event.timer s c v = ground (arith, laws.tick_modest s)
  dispatch-Ending Event.first_tick s c v =
      ground (arith, laws.tick_modest (record s { ticks_due = s.ticks_due - 1 }))
  dispatch-Ending Event.delivered s c v = ground (arith, laws.delivery_modest s)
  dispatch-Ending Event.forced_exit s c v = ground arith
  dispatch-Ending (Event.reconnect opens) s c v = do_reconnect-Ending opens _ (ground arith)

  start-Ending : (opens : Bool) (config : AmqpConfig) → Ending (start h opens config)
  unfolding start init
  start-Ending opens config = connect-Ending opens (init config) (ground arith)

  dispatch-Lasting : (e : Event) (s : Service) → s.shutting_down ≡ true → Lasting s (dispatch h e s)
  unfolding dispatch handle_detached handle_connection_ready handle_connection_failure stop
      do_reconnect stop_timer
  dispatch-Lasting Event.ready s d =
      ground (arith, laws.ready_modest (record s { channel_ready = true; reconnect_attempts = 0 }))
  dispatch-Lasting Event.failed s d = ground arith
  dispatch-Lasting Event.detached s d = ground arith
  dispatch-Lasting Event.signal s d = ground arith
  dispatch-Lasting Event.timer s d = ground (arith, laws.tick_modest s)
  dispatch-Lasting Event.first_tick s d =
      ground (arith, laws.tick_modest (record s { ticks_due = s.ticks_due - 1 }))
  dispatch-Lasting Event.delivered s d = ground (arith, laws.delivery_modest s)
  dispatch-Lasting Event.forced_exit s d = ground arith
  dispatch-Lasting (Event.reconnect opens) s d = ground arith

pub Reach-Ending :
    {I : Type 0} (h : I → Hooks) (laws : (i : I) → HookLaws (h i)) (config : AmqpConfig)
    {s : Service}
    → Reach h config s
    → Ending s
Reach-Ending h laws config (started i opens) = start-Ending (h i) (laws i) opens config
Reach-Ending h laws config (next r i e c) =
    dispatch-Ending (h i) (laws i) e _ c (Reach-Ending h laws config r)

-- Any events, in any order, from a state on.
pub data Steps {I : Type 0} (h : I → Hooks) (s : Service) : Service → Type 0 where
  here : Steps h s s
  more :
      {t : Service}
      → Steps h s t
      → (i : I) (e : Event) → CanHappen e t
      → Steps h s (dispatch (h i) e t)

Lasting-trans : {s t u : Service} → Lasting s t → Lasting t u → Lasting s u
Lasting-trans {s} {t} {u} p q = ground arith

pub Steps-Lasting :
    {I : Type 0} (h : I → Hooks) (laws : (i : I) → HookLaws (h i)) {s t : Service}
    → Steps h s t
    → s.shutting_down ≡ true
    → Lasting s t
Steps-Lasting h laws {s} here d = ground arith
Steps-Lasting h laws (more r i e c) d =
    let p = Steps-Lasting h laws r d in Lasting-trans p (dispatch-Lasting (h i) (laws i) e _ p.down)

-- The first signal ends a service with code 0.
pub signal_ends :
    (h : Hooks) (s : Service)
    → s.shutting_down ≡ false
    → let t = dispatch h Event.signal s in
      (t.shutting_down ≡ true) × (t.exit_code ≡ 0) × (t.connects ≡ s.connects)
unfolding dispatch stop stop_timer
signal_ends h s up = ground arith
