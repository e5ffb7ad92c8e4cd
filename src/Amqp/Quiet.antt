-- ===== src/Amqp/Quiet.antt =====
-- What each call on the channel keeps, and the laws of hooks that are made of such calls.
use habr_parser.Base.{ℕ, ◌≡◌, refl, [], Bool, Option, Bytes, arith}
use habr_parser.Amqp.{
  Service, Ack, declare_queue, declare_fanout_exchange, bind_queue, consume, start_timer,
  publish_to, publish, on_received,
}
use habr_parser.Amqp.Invariant.{Modest, SameTimer, HookLaws}

-- What only sends.
pub record Quiet (s t : Service) : Type 0 where
  pub modest : Modest s t
  pub timer : SameTimer s t

pub Quiet-refl : (s : Service) → Quiet s s
Quiet-refl s = ground arith

pub Quiet-trans : {s t u : Service} → Quiet s t → Quiet t u → Quiet s u
Quiet-trans {s} {t} {u} p q = ground arith

pub declare_queue-Quiet : (queue : Bytes) (s : Service) → Quiet s (declare_queue queue s)
unfolding declare_queue
declare_queue-Quiet queue s = ground arith

pub consume-Quiet : (queue : Bytes) (n : ℕ) (s : Service) → Quiet s (consume queue n s)
unfolding consume
consume-Quiet queue n s = ground arith

pub declare_fanout_exchange-Quiet :
    (exchange : Bytes) (s : Service) → Quiet s (declare_fanout_exchange exchange s)
unfolding declare_fanout_exchange
declare_fanout_exchange-Quiet exchange s = ground arith

pub bind_queue-Quiet :
    (queue exchange : Bytes) (s : Service) → Quiet s (bind_queue queue exchange s)
unfolding bind_queue
bind_queue-Quiet queue exchange s = ground arith

pub publish_to-Quiet :
    (accepted : Bool) (exchange routing_key payload : Bytes) (s : Service)
    → Quiet s (publish_to accepted exchange routing_key payload s).0
unfolding publish_to
publish_to-Quiet accepted exchange routing_key payload s = ground arith

pub publish-Quiet :
    (accepted : Bool) (queue payload : Bytes) (s : Service)
    → Quiet s (publish accepted queue payload s).0
unfolding publish
publish-Quiet accepted queue payload s = publish_to-Quiet accepted [] queue payload s

pub start_timer-Modest :
    (interval : ℕ) (now : Bool) {s t : Service} → Quiet s t → Modest s (start_timer interval now t)
unfolding start_timer
start_timer-Modest interval now q = ground arith

pub start_timer_both :
    (interval : ℕ) (now : Bool) (s : Service)
    → (start_timer interval now s).timer_pending ≡ (start_timer interval now s).timer_armed
unfolding start_timer
start_timer_both interval now s = refl

pub Quiet-both :
    {s t : Service} → Quiet s t → s.timer_pending ≡ s.timer_armed → t.timer_pending ≡ t.timer_armed
Quiet-both q e = ground arith

-- A service whose hooks only send.
pub sending-HookLaws :
    (ready delivery : Service → Service)
    → ((s : Service) → Quiet s (ready s))
    → ((s : Service) → Quiet s (delivery s))
    → HookLaws (record {
      on_channel_ready = ready;
      on_connection_lost = λ s. s;
      on_tick = λ s. s;
      on_delivery = delivery;
    })
sending-HookLaws ready delivery r d = record {
  ready_modest = λ s. (r s).modest;
  ready_timer = λ s e. Quiet-both (r s) e;
  lost_modest = λ s. (Quiet-refl s).modest;
  lost_timer = λ s. (Quiet-refl s).timer;
  tick_modest = λ s. (Quiet-refl s).modest;
  tick_timer = λ s. (Quiet-refl s).timer;
  delivery_modest = λ s. (d s).modest;
  delivery_timer = λ s. (d s).timer;
}

pub on_received-Quiet :
    (decision : Option Ack) (tag : ℕ) (s : Service) → Quiet s (on_received decision tag s)
unfolding on_received
on_received-Quiet decision tag s = ground arith

-- A service that arms its timer behind what it declares.
pub timed-HookLaws :
    (interval : ℕ) (now : Bool) (declares tick delivery : Service → Service)
    → ((s : Service) → Quiet s (declares s))
    → ((s : Service) → Quiet s (tick s))
    → ((s : Service) → Quiet s (delivery s))
    → HookLaws (record {
      on_channel_ready = λ s. start_timer interval now (declares s);
      on_connection_lost = λ s. s;
      on_tick = tick;
      on_delivery = delivery;
    })
timed-HookLaws interval now declares tick delivery d t r = record {
  ready_modest = λ s. start_timer-Modest interval now (d s);
  ready_timer = λ s _. start_timer_both interval now (declares s);
  lost_modest = λ s. (Quiet-refl s).modest;
  lost_timer = λ s. (Quiet-refl s).timer;
  tick_modest = λ s. (t s).modest;
  tick_timer = λ s. (t s).timer;
  delivery_modest = λ s. (r s).modest;
  delivery_timer = λ s. (r s).timer;
}
