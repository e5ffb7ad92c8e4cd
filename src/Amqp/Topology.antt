-- ===== src/Amqp/Topology.antt =====
-- What a service asks of its channel, in order: no queue is consumed, bound or published to before it
-- is declared, which the broker would answer by closing the channel.
pub mod Calls
use habr_parser.Base.{
  ℕ, ◌≡◌, ◌⊎◌, inl, inr, refl, sym, List, [], ◌∷◌, ◌++◌, Bool, true, false, All, if_split, arith,
  ◌-◌,
}
use mathlib.Core.Path.{subst}
use habr_parser.Config.{AmqpConfig}
use habr_parser.Amqp.{
  Service, Frame, Hooks, queue_declare, fanout_declare, queue_bind, basic_consume, basic_publish,
  connection_close, init, start, connect, handle_connection_ready, handle_connection_failure,
  handle_detached, do_reconnect, stop, stop_timer, schedule_reconnect,
}
use habr_parser.Amqp.Step.{Event, dispatch, CanHappen, Reach, started, next}
use habr_parser.Amqp.Invariant.{HookLaws}

abbrev pub In : Frame → List Frame → Type 0
In f [] = ⊥
In f (g ∷ gs) = (f ≡ g) ⊎ In f gs

-- A frame whose queue and exchange are declared by the frames before it.
abbrev pub Allowed : List Frame → Frame → Type 0
Allowed before (queue_bind queue exchange) =
    In (queue_declare queue) before × In (fanout_declare exchange) before
Allowed before (basic_consume queue) = In (queue_declare queue) before
Allowed before (basic_publish [] key payload) = In (queue_declare key) before
Allowed before (basic_publish (c ∷ exchange) key payload) =
    In (fanout_declare (c ∷ exchange)) before
Allowed before _ = Unit

pub data Ordered : List Frame → Type 0 where
  nothing : Ordered []
  and_then : {fs : List Frame} → Ordered fs → (f : Frame) → Allowed fs f → Ordered (fs ++ f ∷ [])

pub In-append : (f : Frame) (fs gs : List Frame) → In f fs → In f (fs ++ gs)
In-append f [] gs h = absurd h
In-append f (g ∷ fs) gs (inl e) = inl e
In-append f (g ∷ fs) gs (inr h) = inr (In-append f fs gs h)

pub In-last : (f : Frame) (fs : List Frame) → In f (fs ++ f ∷ [])
In-last f [] = inl refl
In-last f (g ∷ fs) = inr (In-last f fs)

-- The needed frames stand among the frames.
abbrev pub Has : List Frame → List Frame → Type 0
Has needs fs = All (λ f. In f fs) needs

pub Has-append : (needs fs gs : List Frame) → Has needs fs → Has needs (fs ++ gs)
Has-append [] fs gs h = tt
Has-append (f ∷ needs) fs gs (h, hs) = (In-append f fs gs h, Has-append needs fs gs hs)

-- What a service needs declared while its channel is ready.
pub record Told (needs : List Frame) (s : Service) : Type 0 where
  pub ordered : Ordered s.sent
  pub known : s.channel_ready ≡ true → Has needs s.sent

-- What the hooks must do: declare what is needed, and then send only what that allows.
pub record Declares (needs : List Frame) (h : Hooks) : Type 0 where
  pub on_ready :
      (s : Service)
      → s.channel ≡ true
      → Ordered s.sent
      → Ordered (h.on_channel_ready s).sent × Has needs (h.on_channel_ready s).sent
  pub on_lost : (s : Service) → (h.on_connection_lost s).sent ≡ s.sent
  pub on_tick : (s : Service) → Told needs s → Told needs (h.on_tick s)
  pub on_delivery : (s : Service) → Told needs s → Told needs (h.on_delivery s)

-- A step that sends nothing, and makes no channel ready.
pub record Silent (s t : Service) : Type 0 where
  pub sent : t.sent ≡ s.sent
  pub ready : t.channel_ready ≡ true → s.channel_ready ≡ true

Silent-Told : (needs : List Frame) (s t : Service) → Silent s t → Told needs s → Told needs t
Silent-Told needs s t q v = record {
  ordered = subst Ordered (sym q.sent) v.ordered;
  known = λ e. subst (Has needs) (sym q.sent) (v.known (q.ready e));
}

pub stop_timer-Silent : (s : Service) → Silent s (stop_timer s)
unfolding stop_timer
stop_timer-Silent s = ground arith

pub schedule_reconnect-Silent : (s : Service) → Silent s (schedule_reconnect s)
unfolding schedule_reconnect stop_timer
schedule_reconnect-Silent s = ground arith

pub handle_detached-Silent : (s : Service) → Silent s (handle_detached s)
unfolding handle_detached
handle_detached-Silent s = ground arith

Silent-trans : {s t u : Service} → Silent s t → Silent t u → Silent s u
Silent-trans {s} {t} {u} p q = ground arith

pub stop_sent :
    (code : ℕ) (s : Service)
    → Silent s (stop code s)
      ⊎ (((stop code s).sent ≡ s.sent ++ connection_close ∷ [])
          × ((stop code s).channel_ready ≡ false))
unfolding stop stop_timer
stop_sent code s = ground arith

module _ (needs : List Frame) (h : Hooks) (laws : HookLaws h) (declares : Declares needs h) where
  lost-Silent : (s : Service) → Silent s (h.on_connection_lost s)
  lost-Silent s = let m = laws.lost_modest s in ground (arith, m.channel_ready, declares.on_lost s)

  off-Silent : (s : Service) → Silent s (record s { channel_ready = false })
  off-Silent s = ground arith

  handle_connection_failure-Silent : (s : Service) → Silent s (handle_connection_failure h s)
  unfolding handle_connection_failure
  handle_connection_failure-Silent s =
      if_split (Silent s) s.shutting_down (λ _. ground arith)
        (λ _.
          if_split (λ t. Silent s (schedule_reconnect t)) s.channel_ready
            (λ _. Silent-trans (off-Silent s) (
              Silent-trans (stop_timer-Silent _)
                (Silent-trans (lost-Silent _) (schedule_reconnect-Silent _))))
            (λ _. Silent-trans (off-Silent s) (schedule_reconnect-Silent _)))

  connect-Silent : (opens : Bool) (s : Service) → Silent s (connect h opens s)
  unfolding connect
  connect-Silent true s = ground arith
  connect-Silent false s = Silent-trans (ground arith) (handle_connection_failure-Silent _)

  do_reconnect-Silent : (opens : Bool) (s : Service) → Silent s (do_reconnect h opens s)
  unfolding do_reconnect
  do_reconnect-Silent opens s =
      if_split (Silent s) s.shutting_down (λ _. ground arith)
        (λ _. Silent-trans (ground arith) (connect-Silent opens _))

  stop-Told : (s : Service) → Told needs s → Told needs (stop 0 s)
  stop-Told s v = elim (stop_sent 0 s) [
    | inl q ↦ Silent-Told needs s _ q v
    | inr (e, off) ↦ record {
      ordered = subst Ordered (sym e) (and_then v.ordered connection_close tt);
      known = λ on. absurd (cc (on, off));
    }
  ]

  ready-Told :
      (s : Service) → s.channel ≡ true → Told needs s → Told needs (handle_connection_ready h s)
  unfolding handle_connection_ready
  ready-Told s on v =
      let r =
        declares.on_ready (record s { channel_ready = true; reconnect_attempts = 0 }) on
          v.ordered in
      record { ordered = r.0; known = λ _. r.1 }

  dispatch-Told :
      (e : Event) (s : Service) → CanHappen e s → Told needs s → Told needs (dispatch h e s)
  unfolding dispatch
  dispatch-Told Event.ready s c v = ready-Told s c.0 v
  dispatch-Told Event.failed s c v = Silent-Told needs s _ (handle_connection_failure-Silent s) v
  dispatch-Told Event.detached s c v = Silent-Told needs s _ (handle_detached-Silent s) v
  dispatch-Told Event.signal s c v = stop-Told s v
  dispatch-Told Event.timer s c v = declares.on_tick s v
  dispatch-Told Event.first_tick s c v =
      declares.on_tick (record s { ticks_due = s.ticks_due - 1 })
        (record { ordered = v.ordered; known = v.known })
  dispatch-Told Event.delivered s c v = declares.on_delivery s v
  dispatch-Told Event.forced_exit s c v = record { ordered = v.ordered; known = v.known }
  dispatch-Told (Event.reconnect opens) s c v =
      Silent-Told needs s _ (Silent-trans (ground arith) (do_reconnect-Silent opens _)) v

  start-Told : (opens : Bool) (config : AmqpConfig) → Told needs (start h opens config)
  unfolding start
  start-Told opens config =
      Silent-Told needs (init config) _ (connect-Silent opens (init config))
        (unfold init in record { ordered = nothing; known = λ e. absurd (cc e) })

-- With hooks that meet the laws and declare what they need, after a start and any events in any order
-- every frame that the service has sent names only queues and exchanges that it declared before, and
-- while its channel is ready all that it needs is declared.
pub Reach-Told :
    {I : Type 0} (needs : List Frame) (h : I → Hooks) (laws : (i : I) → HookLaws (h i))
    (declares : (i : I) → Declares needs (h i)) (config : AmqpConfig) {s : Service}
    → Reach h config s
    → Told needs s
Reach-Told needs h laws declares config (started i opens) =
    start-Told needs (h i) (laws i) (declares i) opens config
Reach-Told needs h laws declares config (next r i e c) =
    dispatch-Told needs (h i) (laws i) (declares i) e _ c
      (Reach-Told needs h laws declares config r)
