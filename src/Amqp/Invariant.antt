-- ===== src/Amqp/Invariant.antt =====
-- The invariant of the service skeleton.
use habr_parser.Base.{
  ℕ, ◌-◌, ◌≤◌, ◌<◌, ◌≡◌, refl, Bool, true, false, ◌⊎◌, arith, if_split, ◌∙◌, if◌then◌else◌,
}
use habr_parser.Config.{AmqpConfig}
use habr_parser.Amqp.{
  Service, Hooks, init, start, connect, handle_connection_ready, handle_connection_failure,
  handle_detached, do_reconnect, stop, stop_timer, schedule_reconnect,
}
use habr_parser.Amqp.Step.{Event, dispatch, CanHappen, Reach, started, next}

-- What a hook may change: the frames sent and, while the channel is ready, the timer.
pub record Modest (s t : Service) : Type 0 where
  pub config : t.config ≡ s.config
  pub exit_code : t.exit_code ≡ s.exit_code
  pub reconnect_attempts : t.reconnect_attempts ≡ s.reconnect_attempts
  pub channel_ready : t.channel_ready ≡ s.channel_ready
  pub shutting_down : t.shutting_down ≡ s.shutting_down
  pub reconnect_scheduled : t.reconnect_scheduled ≡ s.reconnect_scheduled
  pub connection : t.connection ≡ s.connection
  pub channel : t.channel ≡ s.channel
  pub connects : t.connects ≡ s.connects
  pub reconnects_due : t.reconnects_due ≡ s.reconnects_due
  pub forced_exits_due : t.forced_exits_due ≡ s.forced_exits_due
  pub exit_requested : t.exit_requested ≡ s.exit_requested

pub record SameTimer (s t : Service) : Type 0 where
  pub armed : t.timer_armed ≡ s.timer_armed
  pub pending : t.timer_pending ≡ s.timer_pending

-- The laws that an implementation's hooks must meet.
pub record HookLaws (h : Hooks) : Type 0 where
  pub ready_modest : (s : Service) → Modest s (h.on_channel_ready s)
  pub ready_timer :
      (s : Service)
      → s.timer_pending ≡ s.timer_armed
      → (h.on_channel_ready s).timer_pending ≡ (h.on_channel_ready s).timer_armed
  pub lost_modest : (s : Service) → Modest s (h.on_connection_lost s)
  pub lost_timer : (s : Service) → SameTimer s (h.on_connection_lost s)
  pub tick_modest : (s : Service) → Modest s (h.on_tick s)
  pub tick_timer : (s : Service) → SameTimer s (h.on_tick s)
  pub delivery_modest : (s : Service) → Modest s (h.on_delivery s)
  pub delivery_timer : (s : Service) → SameTimer s (h.on_delivery s)

pub record Inv (s : Service) : Type 0 where
  pub one_reconnect : s.reconnects_due ≡ (if s.reconnect_scheduled then 1 else 0)
  pub timer : s.timer_pending ≡ s.timer_armed
  pub ticking : s.timer_armed ≡ true → s.channel_ready ≡ true
  pub waiting : s.reconnect_scheduled ≡ true → s.channel_ready ≡ false
  pub usable : s.channel_ready ≡ true → s.channel ≡ true
  pub linked : s.connection ≡ s.channel
  pub attempts : s.shutting_down ≡ false → s.reconnect_attempts ≤ s.config.max_reconnect_attempts
  pub running : s.shutting_down ≡ false → s.exit_code ≡ 0
  pub ending : s.shutting_down ≡ true → (s.exit_requested ≡ true) ⊎ (0 < s.forced_exits_due)

schedule_reconnect-Inv :
    (s : Service)
    → Inv s
    → s.shutting_down ≡ false
    → s.channel_ready ≡ false
    → Inv (schedule_reconnect s)
unfolding schedule_reconnect
schedule_reconnect-Inv s v up down = ground arith

stop-Inv : (code : ℕ) (s : Service) → Inv s → Inv (stop code s)
unfolding stop
stop-Inv code s v = ground arith

-- What `HandleConnectionFailure` does before it schedules a reconnect.
stop_timer-Inv :
    (s : Service)
    → Inv s
    → s.channel_ready ≡ true
    → Inv (stop_timer (record s { channel_ready = false }))
unfolding stop_timer
stop_timer-Inv s v on = ground arith

stop_timer_flags :
    (s : Service)
    → ((stop_timer s).shutting_down ≡ s.shutting_down)
      × ((stop_timer s).channel_ready ≡ s.channel_ready)
unfolding stop_timer
stop_timer_flags s = ground arith

lose_idle-Inv :
    (s : Service) → Inv s → s.channel_ready ≡ false → Inv (record s { channel_ready = false })
lose_idle-Inv s v on = ground arith

init-Inv : (config : AmqpConfig) → Inv (init config)
unfolding init
init-Inv config = ground arith

module _ (h : Hooks) (laws : HookLaws h) where
  handle_connection_ready-Inv :
      (s : Service) → Inv s → CanHappen Event.ready s → Inv (handle_connection_ready h s)
  unfolding handle_connection_ready
  handle_connection_ready-Inv s v c =
      let s' = record s { channel_ready = true; reconnect_attempts = 0 } in
      ground (arith, laws.ready_modest s', laws.ready_timer s')

  lost-Inv : (s : Service) → Inv s → Inv (h.on_connection_lost s)
  lost-Inv s v = ground (arith, laws.lost_modest s, laws.lost_timer s)

  tick-Inv : (s : Service) → Inv s → Inv (h.on_tick s)
  tick-Inv s v = ground (arith, laws.tick_modest s, laws.tick_timer s)

  delivery-Inv : (s : Service) → Inv s → Inv (h.on_delivery s)
  delivery-Inv s v = ground (arith, laws.delivery_modest s, laws.delivery_timer s)

  handle_connection_failure-Inv : (s : Service) → Inv s → Inv (handle_connection_failure h s)
  unfolding handle_connection_failure
  handle_connection_failure-Inv s v =
      if_split Inv s.shutting_down (λ _. v)
        λ up.
          if_split (λ t. Inv (schedule_reconnect t)) s.channel_ready
            (λ on.
              schedule_reconnect-Inv _ (lost-Inv s' (stop_timer-Inv s v on))
                (lost.shutting_down ∙ (stop_timer_flags _).0 ∙ up)
                (lost.channel_ready ∙ (stop_timer_flags _).1))
            (λ off. schedule_reconnect-Inv _ (lose_idle-Inv s v off) up refl)
    where
      s' : Service
      s' = stop_timer (record s { channel_ready = false })

      lost : Modest s' (h.on_connection_lost s')
      lost = laws.lost_modest s'

  connect-Inv :
      (opens : Bool) (s : Service) → Inv s → s.timer_armed ≡ false → Inv (connect h opens s)
  unfolding connect
  connect-Inv true s v idle = ground arith
  connect-Inv false s v idle = handle_connection_failure-Inv _ (ground arith)

  start-Inv : (opens : Bool) (config : AmqpConfig) → Inv (start h opens config)
  unfolding start
  start-Inv opens config = connect-Inv opens (init config) (init-Inv config) (unfold init in refl)

  do_reconnect-Inv :
      (opens : Bool) (s : Service)
      → Inv s
      → 0 < s.reconnects_due
      → Inv (do_reconnect h opens (record s { reconnects_due = s.reconnects_due - 1 }))
  unfolding do_reconnect
  do_reconnect-Inv opens s v due =
      let s' = record s {
        reconnects_due = s.reconnects_due - 1;
        reconnect_scheduled = false;
        channel = false;
        connection = false;
      } in
      if_split Inv s.shutting_down (λ down. ground arith)
        (λ up. connect-Inv opens s' (ground arith) (ground arith))

  -- The invariant is kept by every event that can come up.
  pub dispatch-Inv : (e : Event) (s : Service) → CanHappen e s → Inv s → Inv (dispatch h e s)
  unfolding dispatch handle_detached
  dispatch-Inv Event.ready s c v = handle_connection_ready-Inv s v c
  dispatch-Inv Event.failed s c v = handle_connection_failure-Inv s v
  dispatch-Inv Event.detached s c v = ground arith
  dispatch-Inv Event.signal s c v = stop-Inv 0 s v
  dispatch-Inv Event.timer s c v = tick-Inv s v
  dispatch-Inv Event.first_tick s c v = tick-Inv _ (ground arith)
  dispatch-Inv Event.delivered s c v = delivery-Inv s v
  dispatch-Inv Event.forced_exit s c v = ground arith
  dispatch-Inv (Event.reconnect opens) s c v = do_reconnect-Inv opens s v c

-- With hooks that meet the laws, after a start and any events in any order there is at most one pending reconnect, and exactly
-- when one is scheduled; the timer runs only on a ready channel; the attempts stay within the
-- limit and the exit code is 0 until the service shuts down; and a service that shuts down has
-- asked its loop to exit, or has the forced exit pending.
pub Reach-Inv :
    {I : Type 0} (h : I → Hooks) (laws : (i : I) → HookLaws (h i)) (config : AmqpConfig)
    {s : Service}
    → Reach h config s
    → Inv s
Reach-Inv h laws config (started i opens) = start-Inv (h i) (laws i) opens config
Reach-Inv h laws config (next r i e c) =
    dispatch-Inv (h i) (laws i) e _ c (Reach-Inv h laws config r)
