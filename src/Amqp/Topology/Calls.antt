-- ===== src/Amqp/Topology/Calls.antt =====
-- What each call on the channel does to the order of the frames.
use habr_parser.Base.{
  Option, false, ℕ, ◌≡◌, sym, ◌∙◌, List, [], ◌∷◌, ◌++◌, Bool, true, Bytes, arith, if_split, not,
  ◌||◌,
}
use mathlib.Core.Path.{subst}
use habr_parser.Amqp.{
  Ack, on_received, settle, decided, send, basic_ack, basic_reject, Service, Frame, queue_declare,
  fanout_declare, queue_bind, basic_qos, basic_consume, basic_publish, declare_queue,
  declare_fanout_exchange, bind_queue, consume, publish_to,
}
use habr_parser.Amqp.Topology.{
  In, In-append, In-last, Allowed, Ordered, and_then, Has, Has-append, Told,
}

-- A call on a channel that there is, which keeps the order and what was sent before.
pub record Grown (s t : Service) : Type 0 where
  pub channel : t.channel ≡ true
  pub ordered : Ordered t.sent
  pub keeps : (f : Frame) → In f s.sent → In f t.sent

sent-Grown :
    (s t : Service) (f : Frame)
    → s.channel ≡ true
    → Ordered s.sent
    → Allowed s.sent f
    → t.channel ≡ s.channel
    → t.sent ≡ s.sent ++ f ∷ []
    → Grown s t × In f t.sent
sent-Grown s t f on o a c e = (
  record {
    channel = c ∙ on;
    ordered = subst Ordered (sym e) (and_then o f a);
    keeps = λ g h. subst (In g) (sym e) (In-append g s.sent (f ∷ []) h);
  },
  subst (In f) (sym e) (In-last f s.sent),
)

pub declare_queue-Grown :
    (queue : Bytes) (s : Service)
    → s.channel ≡ true
    → Ordered s.sent
    → Grown s (declare_queue queue s) × In (queue_declare queue) (declare_queue queue s).sent
unfolding declare_queue
declare_queue-Grown queue s on o =
    sent-Grown s _ (queue_declare queue) on o tt (ground arith) (ground arith)

pub declare_fanout_exchange-Grown :
    (exchange : Bytes) (s : Service)
    → s.channel ≡ true
    → Ordered s.sent
    → Grown s (declare_fanout_exchange exchange s)
      × In (fanout_declare exchange) (declare_fanout_exchange exchange s).sent
unfolding declare_fanout_exchange
declare_fanout_exchange-Grown exchange s on o =
    sent-Grown s _ (fanout_declare exchange) on o tt (ground arith) (ground arith)

pub bind_queue-Grown :
    (queue exchange : Bytes) (s : Service)
    → s.channel ≡ true
    → Ordered s.sent
    → In (queue_declare queue) s.sent
    → In (fanout_declare exchange) s.sent
    → Grown s (bind_queue queue exchange s)
unfolding bind_queue
bind_queue-Grown queue exchange s on o q e =
    (sent-Grown s _ (queue_bind queue exchange) on o (q, e) (ground arith) (ground arith)).0

pub consume-Grown :
    (queue : Bytes) (n : ℕ) (s : Service)
    → s.channel ≡ true
    → Ordered s.sent
    → In (queue_declare queue) s.sent
    → Grown s (consume queue n s)
unfolding consume
consume-Grown queue n s on o q = record {
  channel = ground arith;
  ordered =
      subst Ordered (sym both) (and_then (and_then o (basic_qos n) tt) (basic_consume queue) known);
  keeps = λ g h. subst (In g) (sym both) (In-append g _ _ (In-append g _ _ h));
}
  where
    both : (consume queue n s).sent ≡ (s.sent ++ basic_qos n ∷ []) ++ basic_consume queue ∷ []
    both = ground arith

    known : In (queue_declare queue) (s.sent ++ basic_qos n ∷ [])
    known = In-append _ s.sent _ q

-- A publish of a tick.
pub publish_to-Told :
    (needs : List Frame) (accepted : Bool) (exchange key payload : Bytes) (s : Service)
    → (Has needs s.sent → Allowed s.sent (basic_publish exchange key payload))
    → Told needs s
    → Told needs (publish_to accepted exchange key payload s).0
unfolding publish_to
publish_to-Told needs accepted exchange key payload s allowed v =
    if_split (λ (r : Service × Bool). Told needs r.0) (not s.channel || not s.channel_ready)
      (λ _. v)
      (λ on. record {
        ordered = and_then v.ordered _ (allowed (v.known (ground arith)));
        known = λ e. Has-append needs s.sent _ (v.known e);
      })

-- What settles a delivery names no queue.
settle-Told :
    (needs : List Frame) (a : Ack) (tag : ℕ) (s : Service)
    → Told needs s
    → Told needs (send (settle a tag) s)
settle-Told needs Ack.ack tag s v = record {
  ordered = and_then v.ordered (basic_ack tag) tt;
  known = λ e. Has-append needs s.sent _ (v.known e);
}
settle-Told needs Ack.requeue tag s v = record {
  ordered = and_then v.ordered (basic_reject tag true) tt;
  known = λ e. Has-append needs s.sent _ (v.known e);
}
settle-Told needs Ack.reject tag s v = record {
  ordered = and_then v.ordered (basic_reject tag false) tt;
  known = λ e. Has-append needs s.sent _ (v.known e);
}

pub on_received-Told :
    (needs : List Frame) (decision : Option Ack) (tag : ℕ) (s : Service)
    → Told needs s
    → Told needs (on_received decision tag s)
unfolding on_received
on_received-Told needs decision tag s v = settle-Told needs (decided decision) tag s v
