-- ===== src/Amqp/Settled.antt =====
-- The deliveries that a service has settled: the tags of the acks and rejects it sent, in order.
use habr_parser.Base.{
  ℕ, ◌≡◌, refl, sym, ap, ◌∙◌, List, [], ◌∷◌, ◌++◌, map, append-nil, Bool, true, false, not, ◌||◌,
  Option, Bytes, if_split, inl, inr,
}
use mathlib.Core.List.{map-append}
use habr_parser.Config.{AmqpConfig}
use habr_parser.Amqp.{
  Service, Ack, Frame, Hooks, basic_ack, basic_reject, settle, decided, send, declare_queue,
  declare_fanout_exchange, bind_queue, consume, publish_to, publish, publish_to_exchange,
  on_received, init, start, connect, handle_connection_ready, handle_connection_failure,
  do_reconnect, stop, stop_timer, connection_close,
}
use habr_parser.Amqp.Step.{Event, dispatch}
use habr_parser.Amqp.Run.{Run, started, next, received, note}
use habr_parser.Amqp.Topology.{
  stop_sent, schedule_reconnect-Silent, handle_detached-Silent, stop_timer-Silent,
}

abbrev pub tags : List Frame → List ℕ
tags [] = []
tags (basic_ack tag ∷ fs) = tag ∷ tags fs
tags (basic_reject tag again ∷ fs) = tag ∷ tags fs
tags (_ ∷ fs) = tags fs

tags-append : (fs gs : List Frame) → tags (fs ++ gs) ≡ tags fs ++ tags gs
tags-append [] gs = refl
tags-append (basic_ack tag ∷ fs) gs = ap (◌∷◌ tag) (tags-append fs gs)
tags-append (basic_reject tag again ∷ fs) gs = ap (◌∷◌ tag) (tags-append fs gs)
tags-append (Frame.queue_declare q ∷ fs) gs = tags-append fs gs
tags-append (Frame.fanout_declare q ∷ fs) gs = tags-append fs gs
tags-append (Frame.queue_bind q e ∷ fs) gs = tags-append fs gs
tags-append (Frame.basic_qos n ∷ fs) gs = tags-append fs gs
tags-append (Frame.basic_consume q ∷ fs) gs = tags-append fs gs
tags-append (Frame.basic_publish e k p ∷ fs) gs = tags-append fs gs
tags-append (Frame.connection_close ∷ fs) gs = tags-append fs gs

-- A step that settles nothing.
abbrev pub Unsettling : Service → Service → Type 0
Unsettling s t = tags t.sent ≡ tags s.sent

other-Unsettling : (f : Frame) (s : Service) → tags (f ∷ []) ≡ [] → Unsettling s (send f s)
other-Unsettling f s e = tags-append s.sent (f ∷ []) ∙ rw e (append-nil (tags s.sent))

pub declare_queue-Unsettling : (queue : Bytes) (s : Service) → Unsettling s (declare_queue queue s)
unfolding declare_queue
declare_queue-Unsettling queue s =
    if_split (Unsettling s) s.channel (λ _. other-Unsettling _ s refl) (λ _. refl)

pub declare_fanout_exchange-Unsettling :
    (exchange : Bytes) (s : Service) → Unsettling s (declare_fanout_exchange exchange s)
unfolding declare_fanout_exchange
declare_fanout_exchange-Unsettling exchange s =
    if_split (Unsettling s) s.channel (λ _. other-Unsettling _ s refl) (λ _. refl)

pub bind_queue-Unsettling :
    (queue exchange : Bytes) (s : Service) → Unsettling s (bind_queue queue exchange s)
unfolding bind_queue
bind_queue-Unsettling queue exchange s =
    if_split (Unsettling s) s.channel (λ _. other-Unsettling _ s refl) (λ _. refl)

pub consume-Unsettling :
    (queue : Bytes) (prefetch : ℕ) (s : Service) → Unsettling s (consume queue prefetch s)
unfolding consume
consume-Unsettling queue prefetch s =
    if_split (Unsettling s) s.channel
      (λ _. other-Unsettling _ (send (Frame.basic_qos prefetch) s) refl ∙ other-Unsettling _ s refl)
      (λ _. refl)

pub publish_to-Unsettling :
    (accepted : Bool) (exchange key payload : Bytes) (s : Service)
    → Unsettling s (publish_to accepted exchange key payload s).0
unfolding publish_to
publish_to-Unsettling accepted exchange key payload s =
    if_split (λ (o : Service × Bool). Unsettling s o.0) (not s.channel || not s.channel_ready)
      (λ _. refl) (λ _. other-Unsettling _ s refl)

pub publish-Unsettling :
    (accepted : Bool) (queue payload : Bytes) (s : Service)
    → Unsettling s (publish accepted queue payload s).0
unfolding publish
publish-Unsettling accepted queue payload s = publish_to-Unsettling accepted [] queue payload s

pub publish_to_exchange-Unsettling :
    (accepted : Bool) (exchange payload : Bytes) (s : Service)
    → Unsettling s (publish_to_exchange accepted exchange payload s).0
unfolding publish_to_exchange
publish_to_exchange-Unsettling accepted exchange payload s =
    publish_to-Unsettling accepted exchange [] payload s

-- The callback of a delivery settles it, and no other.
abbrev pub Settling : ℕ → Service → Service → Type 0
Settling tag s t = tags t.sent ≡ tags s.sent ++ tag ∷ []

pub on_received-Settling :
    (decision : Option Ack) (tag : ℕ) (s : Service) → Settling tag s (on_received decision tag s)
unfolding on_received
on_received-Settling decision tag s =
    tags-append s.sent _ ∙ ap (λ ts. tags s.sent ++ ts) (tags-settle (decided decision))
  where
    tags-settle : (a : Ack) → tags (settle a tag ∷ []) ≡ tag ∷ []
    tags-settle Ack.ack = refl
    tags-settle Ack.reject = refl
    tags-settle Ack.requeue = refl

pub record SettleLaws (tag : ℕ) (h : Hooks) : Type 0 where
  pub on_ready : (s : Service) → Unsettling s (h.on_channel_ready s)
  pub on_lost : (s : Service) → Unsettling s (h.on_connection_lost s)
  pub on_tick : (s : Service) → Unsettling s (h.on_tick s)
  pub on_delivery : (s : Service) → Settling tag s (h.on_delivery s)

stop-Unsettling : (code : ℕ) (s : Service) → Unsettling s (stop code s)
stop-Unsettling code s = elim (stop_sent code s) [
  | inl q ↦ ap tags q.sent
  | inr (e, off) ↦ ap tags e ∙ other-Unsettling connection_close s refl
]

module _ (tag : ℕ) (h : Hooks) (laws : SettleLaws tag h) where
  failure-Unsettling : (s : Service) → Unsettling s (handle_connection_failure h s)
  unfolding handle_connection_failure
  failure-Unsettling s =
      let off = record s { channel_ready = false } in
      if_split (Unsettling s) s.shutting_down (λ _. refl)
        (λ _.
          ap tags (schedule_reconnect-Silent _).sent
          ∙ if_split (Unsettling s) s.channel_ready
              (λ _. laws.on_lost (stop_timer off) ∙ ap tags (stop_timer-Silent off).sent)
              (λ _. refl))

  connect-Unsettling : (opens : Bool) (s : Service) → Unsettling s (connect h opens s)
  unfolding connect
  connect-Unsettling true s = refl
  connect-Unsettling false s = failure-Unsettling _

  do_reconnect-Unsettling : (opens : Bool) (s : Service) → Unsettling s (do_reconnect h opens s)
  unfolding do_reconnect
  do_reconnect-Unsettling opens s =
      if_split (Unsettling s) s.shutting_down (λ _. refl) (λ _. connect-Unsettling opens _)

  start-Unsettling : (opens : Bool) (config : AmqpConfig) → tags (start h opens config).sent ≡ []
  unfolding start init
  start-Unsettling opens config = connect-Unsettling opens (init config)

  -- Of all events only a delivery settles anything.
  abbrev settles : Event → List ℕ → List ℕ
  settles Event.delivered ts = ts ++ tag ∷ []
  settles _ ts = ts

  dispatch-settles :
      (e : Event) (s : Service) → tags (dispatch h e s).sent ≡ settles e (tags s.sent)
  unfolding dispatch handle_connection_ready
  dispatch-settles Event.ready s = laws.on_ready _
  dispatch-settles Event.failed s = failure-Unsettling s
  dispatch-settles Event.detached s = ap tags (handle_detached-Silent s).sent
  dispatch-settles Event.signal s = stop-Unsettling 0 s
  dispatch-settles Event.timer s = laws.on_tick s
  dispatch-settles Event.first_tick s = laws.on_tick _
  dispatch-settles Event.delivered s = laws.on_delivery s
  dispatch-settles Event.forced_exit s = refl
  dispatch-settles (Event.reconnect opens) s = do_reconnect-Unsettling opens _

module _ {I J A : Type 0} (h : J → Hooks) (given : I → A → J) (keep : I → A → A)
    (config : AmqpConfig) (first : A) (tag : I → ℕ)
    (laws : (i : I) (a : A) → SettleLaws (tag i) (h (given i a))) where
  note-settles :
      (e : Event) (i : I) (a : A) (ts : List ℕ) (is : List I)
      → ts ≡ map tag is
      → settles (tag i) (h (given i a)) (laws i a) e ts
        ≡ map tag (note h given keep config first e i is)
  note-settles Event.delivered i a ts is e =
      ap (λ us. us ++ tag i ∷ []) e ∙ sym (map-append tag is (i ∷ []))
  note-settles Event.ready i a ts is e = e
  note-settles Event.failed i a ts is e = e
  note-settles Event.detached i a ts is e = e
  note-settles Event.signal i a ts is e = e
  note-settles Event.timer i a ts is e = e
  note-settles Event.first_tick i a ts is e = e
  note-settles Event.forced_exit i a ts is e = e
  note-settles (Event.reconnect opens) i a ts is e = e

  -- The tags that were settled are those of the deliveries, each once and in order.
  pub Run-settled :
      {s : Service} {a : A} (r : Run h given keep config first s a)
      → tags s.sent ≡ map tag (received h given keep config first r)
  unfolding received
  Run-settled (started i opens) =
      start-Unsettling (tag i) (h (given i first)) (laws i first) opens config
  Run-settled (next {a = a} r i e can) =
      dispatch-settles (tag i) (h (given i a)) (laws i a) e _
      ∙ note-settles e i a _ _ (Run-settled r)
