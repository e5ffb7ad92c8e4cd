-- ===== src/Amqp/Step.antt =====
-- What the event loop does to a service: one step for each event that can come up.
use habr_parser.Base.{◌-◌, ◌<◌, ◌≡◌, Bool, true, false}
use habr_parser.Config.{AmqpConfig}
use habr_parser.Amqp.{
  Service, Hooks, start, handle_connection_ready, handle_connection_failure, handle_detached,
  do_reconnect, stop, loopexit,
}

-- A library callback, a signal or a timer of the loop.
pub data Event : Type 0 where
  ready failed detached signal timer first_tick forced_exit delivered : Event
  reconnect : Bool → Event

module _ (h : Hooks) where
  -- The trampolines and the callbacks of the connection handler and the channel.
  unfoldable pub dispatch : Event → Service → Service
  dispatch Event.ready s = handle_connection_ready h s
  dispatch Event.failed s = handle_connection_failure h s
  dispatch Event.detached s = handle_detached s
  dispatch Event.signal s = stop 0 s
  dispatch Event.timer s = h.on_tick s
  dispatch Event.first_tick s = h.on_tick (record s { ticks_due = s.ticks_due - 1 })
  dispatch Event.delivered s = h.on_delivery s
  dispatch Event.forced_exit s = loopexit (record s { forced_exits_due = s.forced_exits_due - 1 })
  dispatch (Event.reconnect opens) s =
      do_reconnect h opens (record s { reconnects_due = s.reconnects_due - 1 })

-- When an event can come up. A channel that failed, or whose connection did, does not become ready.
abbrev pub CanHappen : Event → Service → Type 0
CanHappen Event.ready s = (s.channel ≡ true) × (s.reconnect_scheduled ≡ false)
CanHappen Event.failed s = Unit
CanHappen Event.detached s = Unit
CanHappen Event.signal s = Unit
CanHappen Event.timer s = s.timer_pending ≡ true
CanHappen Event.first_tick s = 0 < s.ticks_due
CanHappen Event.delivered s = s.channel ≡ true
CanHappen Event.forced_exit s = 0 < s.forced_exits_due
CanHappen (Event.reconnect opens) s = 0 < s.reconnects_due

-- The states of a service that was started, over every order of events. What the hooks read besides
-- the service (a clock, an HTTP response, a database) is an input of type `I` to each step.
pub data Reach {I : Type 0} (h : I → Hooks) (config : AmqpConfig) : Service → Type 0 where
  started : (i : I) (opens : Bool) → Reach h config (start (h i) opens config)
  next :
      {s : Service}
      → Reach h config s
      → (i : I) (e : Event) → CanHappen e s
      → Reach h config (dispatch (h i) e s)
