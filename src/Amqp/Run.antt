-- ===== src/Amqp/Run.antt =====
-- Runs of a service that keeps something of its deliveries: a history, a database, files. The state
-- of the skeleton and what is kept move together.
use habr_parser.Base.{Bool, true, List, [], ◌∷◌, ◌++◌, ◌≡◌, refl, ap, sym, ◌∙◌}
use habr_parser.Config.{AmqpConfig}
use habr_parser.Amqp.{Service, Hooks, start, connect, init}
use habr_parser.Amqp.Step.{Event, dispatch, CanHappen, Reach}
use habr_parser.Amqp.Step as Step

-- What is kept behind an event: only a delivery changes it.
abbrev pub kept : {A : Type 0} → Event → A → A → A
kept Event.delivered new old = new
kept _ new old = old

-- `given i a` is what a step reads, where `i` came up and `a` is kept.
module _ {I J A : Type 0} (h : J → Hooks) (given : I → A → J) (keep : I → A → A)
    (config : AmqpConfig) (first : A) where
  pub data Run : Service → A → Type 0 where
    started : (i : I) (opens : Bool) → Run (start (h (given i first)) opens config) first
    next :
        {s : Service} {a : A}
        → Run s a
        → (i : I) (e : Event) → CanHappen e s
        → Run (dispatch (h (given i a)) e s) (kept e (keep i a) a)

  -- The skeleton cannot tell a run from a sequence of events whose inputs are arbitrary.
  pub Run-Reach : {s : Service} {a : A} → Run s a → Reach h config s
  Run-Reach (started i opens) = Step.started (given i first) opens
  Run-Reach (next {a = a} r i e can) = Step.next (Run-Reach r) (given i a) e can

  abbrev pub note : Event → I → List I → List I
  note Event.delivered i is = is ++ i ∷ []
  note _ i is = is

  -- The deliveries of a run, in order.
  unfoldable pub received : {s : Service} {a : A} → Run s a → List I
  received (started i opens) = []
  received (next r i e can) = note e i (received r)

module _ {I A : Type 0} (keep : I → A → A) where
  abbrev pub keep_all : List I → A → A
  keep_all [] a = a
  keep_all (i ∷ is) a = keep_all is (keep i a)

  keep_all-append :
      (is : List I) (i : I) (a : A) → keep_all (is ++ i ∷ []) a ≡ keep i (keep_all is a)
  keep_all-append [] i a = refl
  keep_all-append (k ∷ is) i a = keep_all-append is i (keep k a)

module _ {I J A : Type 0} (h : J → Hooks) (given : I → A → J) (keep : I → A → A)
    (config : AmqpConfig) (first : A) where
  kept-note :
      (e : Event) (i : I) (a : A) (is : List I)
      → a ≡ keep_all keep is first
      → kept e (keep i a) a ≡ keep_all keep (note h given keep config first e i is) first
  kept-note Event.delivered i a is ih = ap (keep i) ih ∙ sym (keep_all-append keep is i first)
  kept-note Event.ready i a is ih = ih
  kept-note Event.failed i a is ih = ih
  kept-note Event.detached i a is ih = ih
  kept-note Event.signal i a is ih = ih
  kept-note Event.timer i a is ih = ih
  kept-note Event.first_tick i a is ih = ih
  kept-note Event.forced_exit i a is ih = ih
  kept-note (Event.reconnect opens) i a is ih = ih

  -- What is kept is what the deliveries alone give, in their order.
  pub Run-keep_all :
      {s : Service} {a : A} (r : Run h given keep config first s a)
      → a ≡ keep_all keep (received h given keep config first r) first
  unfolding received
  Run-keep_all (started i opens) = refl
  Run-keep_all (next {a = a} r i e can) = kept-note e i a _ (Run-keep_all r)

-- A service whose connection opened at the start has a channel.
pub start-channel : (h : Hooks) (config : AmqpConfig) → (start h true config).channel ≡ true
unfolding start connect init
start-channel h config = refl
