-- ===== src/Amqp/Recovery.antt =====
-- The broker is back: a scheduled reconnect that opens, and the channel that gets ready.
use habr_parser.Base.{◌≤◌, ◌≡◌, true, false, arith}
use habr_parser.Config.{AmqpConfig}
use habr_parser.Amqp.{
  init, start, handle_connection_failure, schedule_reconnect, stop, stop_timer, Service, Hooks,
  connect, do_reconnect, handle_connection_ready,
}
use habr_parser.Amqp.Step.{Event, dispatch, CanHappen}
use habr_parser.Amqp.Invariant.{HookLaws, Inv}

-- The reconnect can come up.
pub reconnect_can :
    (s : Service) → Inv s → s.reconnect_scheduled ≡ true → CanHappen (Event.reconnect true) s
reconnect_can s v e = ground (arith, v.one_reconnect)

-- It opens a channel that is not ready yet.
pub record Opened (s : Service) : Type 0 where
  pub channel : s.channel ≡ true
  pub connection : s.connection ≡ true
  pub free : s.reconnect_scheduled ≡ false
  pub off : s.channel_ready ≡ false
  pub up : s.shutting_down ≡ false

pub reconnect-Opened :
    (h : Hooks) (s : Service)
    → s.shutting_down ≡ false
    → Opened (dispatch h (Event.reconnect true) s)
unfolding dispatch do_reconnect connect
reconnect-Opened h s up = ground arith

-- Nothing is sent for it, and no tick is lost.
pub reconnect_quiet :
    (h : Hooks) (s : Service)
    → s.shutting_down ≡ false
    → let t = dispatch h (Event.reconnect true) s in (t.sent ≡ s.sent) × (t.ticks_due ≡ s.ticks_due)
unfolding dispatch do_reconnect connect
reconnect_quiet h s up = ground arith

pub ready_lem :
    (h : Hooks) (laws : HookLaws h) (s : Service)
    → let t = dispatch h Event.ready s in
      (t.channel_ready ≡ true)
      × (t.reconnect_attempts ≡ 0)
      × (t.shutting_down ≡ s.shutting_down)
      × (t.reconnect_scheduled ≡ s.reconnect_scheduled)
unfolding dispatch handle_connection_ready
ready_lem h laws s =
    let m = laws.ready_modest (record s { channel_ready = true; reconnect_attempts = 0 }) in
    (m.channel_ready, m.reconnect_attempts, m.shutting_down, m.reconnect_scheduled)

-- If a signal comes while it waits, the reconnect still comes up, and finds the exit requested.
pub start_failed_signalled :
    (h : Hooks) (config : AmqpConfig)
    → 1 ≤ config.max_reconnect_attempts
    → let t = dispatch h Event.signal (start h false config) in
      (CanHappen (Event.reconnect true) t)
      × ((dispatch h (Event.reconnect true) t).exit_requested ≡ true)
unfolding dispatch start connect init handle_connection_failure schedule_reconnect stop do_reconnect
    stop_timer
start_failed_signalled h config m = ground arith

-- A service whose first attempt fails waits for the next, where one is allowed.
pub start_failed :
    (h : Hooks) (config : AmqpConfig)
    → 1 ≤ config.max_reconnect_attempts
    → let s = start h false config in (s.reconnect_scheduled ≡ true) × (s.shutting_down ≡ false)
unfolding start connect init handle_connection_failure schedule_reconnect
start_failed h config m = ground arith
