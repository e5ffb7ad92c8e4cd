-- ===== src/Amqp.antt =====
-- The skeleton of every service (shared/cpp/messaging/src/amqp_service.cpp and amqp_service.hpp):
-- one event loop that drives the AMQP link, the signals, the reconnects and a periodic timer.
-- `sent` records what the service asks of its channel and connection, in order; the loop's pending
-- events are the fields `timer_pending` to `exit_requested`.
pub mod Step
pub mod Run
pub mod Settled
pub mod Ending
pub mod Invariant
pub mod Outage
pub mod Recovery
pub mod Topology
pub mod Quiet
mod Tests
use habr_parser.Base.{
  ℕ, ◌+◌, ◌%◌, ◌^◌, List, [], ◌∷◌, ◌++◌, Bool, true, false, not, ◌&&◌, ◌||◌, Option, none, some,
  Bytes, utf8, written, bytes_eq, to_string, ltb, if◌then◌else◌,
}
use habr_parser.Config.{AmqpConfig}

-- What a consumer callback decides to do with a delivery.
pub data Ack : Type 0 where
  ack reject requeue : Ack

pub data Frame : Type 0 where
  -- durable, both
  queue_declare fanout_declare : Bytes → Frame
  queue_bind : Bytes → Bytes → Frame
  basic_qos : ℕ → Frame
  basic_consume : Bytes → Frame
  -- exchange, routing key, payload; persistent
  basic_publish : Bytes → Bytes → Bytes → Frame
  basic_ack : ℕ → Frame
  -- delivery tag, and whether the broker shall queue the message again
  basic_reject : ℕ → Bool → Frame
  connection_close : Frame

pub record Service : Type 0 where
  pub config : AmqpConfig
  pub exit_code : ℕ
  pub reconnect_attempts : ℕ
  pub channel_ready : Bool
  pub shutting_down : Bool
  pub reconnect_scheduled : Bool
  pub timer_interval_seconds : ℕ
  pub timer_armed : Bool
  -- whether `connection_` and `channel_` point to an object
  pub connection : Bool
  pub channel : Bool
  pub sent : List Frame
  -- how often the constructor of a connection was called, which the object does not keep
  pub connects : ℕ
  -- the event loop: the periodic timer, the one-shot events that wait, and a requested exit
  pub timer_pending : Bool
  pub ticks_due : ℕ
  pub reconnects_due : ℕ
  pub forced_exits_due : ℕ
  pub exit_requested : Bool

-- AMQP::Address reads an empty path as the default vhost "/".
pub build_amqp_address : AmqpConfig → Bytes
build_amqp_address config = written (
    utf8 "amqp://"
    ∷ config.user
    ∷ utf8 ":"
    ∷ config.password
    ∷ utf8 "@"
    ∷ config.host
    ∷ utf8 ":"
    ∷ to_string config.port
    ∷ utf8 "/"
    ∷ (if bytes_eq config.vhost (utf8 "/") then [] else config.vhost)
    ∷ [])

pub init : AmqpConfig → Service
init config = record {
  config = config;
  exit_code = 0;
  reconnect_attempts = 0;
  channel_ready = false;
  shutting_down = false;
  reconnect_scheduled = false;
  timer_interval_seconds = 0;
  timer_armed = false;
  connection = false;
  channel = false;
  sent = [];
  connects = 0;
  timer_pending = false;
  ticks_due = 0;
  reconnects_due = 0;
  forced_exits_due = 0;
  exit_requested = false;
}

-- The virtual members that a service overrides.
pub record Hooks : Type 0 where
  pub on_channel_ready : Service → Service
  pub on_connection_lost : Service → Service
  pub on_tick : Service → Service
  -- the callback that a service gives to `Consume`, on one delivery
  pub on_delivery : Service → Service

abbrev pub send : Frame → Service → Service
send f s = record s { sent = s.sent ++ f ∷ [] }

abbrev pub loopexit : Service → Service
loopexit s = record s { exit_requested = true }

-- `if (!channel_) return;`
abbrev pub on_channel : Service → Service → Service
on_channel s t = if s.channel then t else s

unfoldable pub declare_queue : Bytes → Service → Service
declare_queue queue s = on_channel s (send (queue_declare queue) s)

unfoldable pub declare_fanout_exchange : Bytes → Service → Service
declare_fanout_exchange exchange s = on_channel s (send (fanout_declare exchange) s)

unfoldable pub bind_queue : Bytes → Bytes → Service → Service
bind_queue queue exchange s = on_channel s (send (queue_bind queue exchange) s)

unfoldable pub consume : Bytes → ℕ → Service → Service
consume queue prefetch s = on_channel s (send (basic_consume queue) (send (basic_qos prefetch) s))

-- `accepted` is what the library's `publish` returns. The frame is what it was asked to send, also where
-- it refuses.
unfoldable pub publish_to : Bool → Bytes → Bytes → Bytes → Service → Service × Bool
publish_to accepted exchange routing_key payload s =
    if not s.channel || not s.channel_ready
    then (s, false)
    else (send (basic_publish exchange routing_key payload) s, accepted)

unfoldable pub publish : Bool → Bytes → Bytes → Service → Service × Bool
unfolding publish_to
publish accepted queue payload s = publish_to accepted [] queue payload s

unfoldable pub publish_to_exchange : Bool → Bytes → Bytes → Service → Service × Bool
unfolding publish_to
publish_to_exchange accepted exchange payload s = publish_to accepted exchange [] payload s

-- The callback of `Consume`: `decision` is what the handler returns, `none` where it throws.
abbrev pub decided : Option Ack → Ack
decided none = Ack.reject
decided (some a) = a

abbrev pub settle : Ack → ℕ → Frame
settle Ack.ack tag = basic_ack tag
settle Ack.requeue tag = basic_reject tag true
settle Ack.reject tag = basic_reject tag false

unfoldable pub on_received : Option Ack → ℕ → Service → Service
on_received decision tag s = send (settle (decided decision) tag) s

-- A delivery: the handler runs, and what it decides is sent.
unfoldable pub deliver : (Bytes → Service → Service × Option Ack) → ℕ → Bytes → Service → Service
unfolding on_received
deliver handler tag payload s =
    let (s', decision) = handler payload s in on_received decision tag s'

unfoldable pub start_timer : ℕ → Bool → Service → Service
start_timer interval fire_immediately s = record s {
  timer_interval_seconds = interval;
  timer_armed = true;
  timer_pending = true;
  ticks_due = if fire_immediately then s.ticks_due + 1 else s.ticks_due;
}

pub stop_timer : Service → Service
stop_timer s = if s.timer_armed then record s { timer_pending = false; timer_armed = false } else s

pub schedule_reconnect : Service → Service
unfolding stop_timer
schedule_reconnect s =
    let attempts = (s.reconnect_attempts + 1) % 2 ^ 32 in
    let s' = record s { reconnect_attempts = attempts } in
    if s.reconnect_scheduled
    then s
    else if ltb s.config.max_reconnect_attempts attempts
    then loopexit (stop_timer (record s' { exit_code = 1; shutting_down = true }))
    else record s' { reconnect_scheduled = true; reconnects_due = s.reconnects_due + 1 }

-- `Stop`
pub stop : ℕ → Service → Service
unfolding stop_timer
stop exit_code s =
    let s' =
      stop_timer
        (record s { shutting_down = true; exit_code = exit_code; channel_ready = false }) in
    if s.shutting_down
    then s
    else if s.connection
    then record (send connection_close s') { forced_exits_due = s.forced_exits_due + 1 }
    else loopexit s'

pub handle_detached : Service → Service
handle_detached s = if s.shutting_down then loopexit s else s

module _ (h : Hooks) where
  unfoldable pub handle_connection_ready : Service → Service
  handle_connection_ready s =
      h.on_channel_ready (record s { channel_ready = true; reconnect_attempts = 0 })

  pub handle_connection_failure : Service → Service
  handle_connection_failure s =
      let s' = record s { channel_ready = false } in
      if s.shutting_down
      then s
      else schedule_reconnect (if s.channel_ready then h.on_connection_lost (stop_timer s') else s')

  -- `opens`: whether the constructor of the connection returns; it may throw.
  pub connect : Bool → Service → Service
  connect opens s =
      let s' = record s { channel_ready = false; connects = s.connects + 1 } in
      if opens
      then record s' { connection = true; channel = true }
      else handle_connection_failure s'

  pub do_reconnect : Bool → Service → Service
  do_reconnect opens s =
      let s' = record s { reconnect_scheduled = false } in
      if s.shutting_down
      then s'
      else connect opens (record s' { channel = false; connection = false })

  -- What `Run` does before it enters the loop.
  pub start : Bool → AmqpConfig → Service
  start opens config = connect opens (init config)
