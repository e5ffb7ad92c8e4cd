-- ===== src/Amqp/Outage.antt =====
-- A broker that cannot be reached: the service tries as often as it is configured to, then exits.
use habr_parser.Base.{
  ℕ, ◌+◌, ◌-◌, ◌^◌, ◌≤◌, ◌<◌, ◌≡◌, refl, List, [], ◌∷◌, Bool, true, false, arith, length,
  if◌then◌else◌, if_split,
}
use habr_parser.Config.{AmqpConfig}
use habr_parser.Amqp.{
  Service, Hooks, init, start, connect, handle_connection_failure, do_reconnect, schedule_reconnect,
}
use habr_parser.Amqp.Step.{Event, dispatch}

-- The k-th attempt has failed, and the next is scheduled.
pub record Waiting (config : AmqpConfig) (k : ℕ) (s : Service) : Type 0 where
  pub config_kept : s.config ≡ config
  pub attempts : s.reconnect_attempts ≡ k
  pub scheduled : s.reconnect_scheduled ≡ true
  pub due : s.reconnects_due ≡ 1
  pub off : s.channel_ready ≡ false
  pub up : s.shutting_down ≡ false
  pub stays : s.exit_requested ≡ false

-- The service has given up: its loop is to exit, and the process with code 1.
pub record GaveUp (s : Service) : Type 0 where
  pub exit_code : s.exit_code ≡ 1
  pub shutting_down : s.shutting_down ≡ true
  pub exit_requested : s.exit_requested ≡ true
  pub no_reconnect : s.reconnect_scheduled ≡ false

-- A failure that finds no reconnect scheduled.
record Failing (config : AmqpConfig) (k : ℕ) (s : Service) : Type 0 where
  config_kept : s.config ≡ config
  attempts : s.reconnect_attempts ≡ k
  free : s.reconnect_scheduled ≡ false
  due : s.reconnects_due ≡ 0
  off : s.channel_ready ≡ false
  up : s.shutting_down ≡ false
  stays : s.exit_requested ≡ false

module _ (h : Hooks) (config : AmqpConfig) where
  -- One attempt that fails: the constructor throws, or the connection opens and an error follows.
  pub attempt : Bool → Service → Service
  attempt opens s =
      let s' = dispatch h (Event.reconnect opens) s in
      if opens then dispatch h Event.failed s' else s'

  -- The first attempt, at the start, likewise.
  pub first_attempt : Bool → Service
  first_attempt opens =
      let s = start h opens config in if opens then dispatch h Event.failed s else s

  -- The attempts in order.
  pub outage : List Bool → Service → Service
  outage [] s = s
  outage (opens ∷ rest) s = outage rest (attempt opens s)

module _ (h : Hooks) (config : AmqpConfig)
    (small : config.max_reconnect_attempts + 1 < 2 ^ 32) where
  fails-Waiting :
      (k : ℕ) (s : Service)
      → Failing config k s
      → k < config.max_reconnect_attempts
      → Waiting config (k + 1) (handle_connection_failure h s)
  unfolding handle_connection_failure schedule_reconnect
  fails-Waiting k s f lt = ground arith

  fails-GaveUp :
      (k : ℕ) (s : Service)
      → Failing config k s
      → k ≡ config.max_reconnect_attempts
      → GaveUp (handle_connection_failure h s)
  unfolding handle_connection_failure schedule_reconnect
  fails-GaveUp k s f e = ground arith

  Outcome : ℕ → Service → Type 0
  Outcome k s =
      (k < config.max_reconnect_attempts → Waiting config (k + 1) s)
      × (k ≡ config.max_reconnect_attempts → GaveUp s)

  failure-Outcome :
      (k : ℕ) (s : Service) → Failing config k s → Outcome k (handle_connection_failure h s)
  unfolding Outcome
  failure-Outcome k s f = (fails-Waiting k s f, fails-GaveUp k s f)

  connect-Outcome :
      (opens : Bool) (k : ℕ) (s : Service)
      → Failing config k s
      → Outcome k (let s' = connect h opens s in if opens then dispatch h Event.failed s' else s')
  unfolding connect dispatch
  connect-Outcome true k s f = failure-Outcome k _ (ground arith)
  connect-Outcome false k s f = failure-Outcome k _ (ground arith)

  first_attempt-Outcome : (opens : Bool) → Outcome 0 (first_attempt h config opens)
  unfolding first_attempt start init
  first_attempt-Outcome opens = connect-Outcome opens 0 _ (ground arith)

  do_reconnect_running :
      (opens : Bool) (s : Service)
      → s.shutting_down ≡ false
      → do_reconnect h opens s
        ≡ connect h opens
            (record s { reconnect_scheduled = false; channel = false; connection = false })
  unfolding do_reconnect
  do_reconnect_running opens s up =
      if_split
        (λ t.
          t
          ≡ connect h opens
              (record s { reconnect_scheduled = false; channel = false; connection = false }))
        s.shutting_down (λ down. cc) (λ _. refl)

  attempt-Outcome :
      (opens : Bool) (k : ℕ) (s : Service)
      → Waiting config k s
      → Outcome k (attempt h config opens s)
  unfolding attempt dispatch
  attempt-Outcome opens k s w =
      rw (do_reconnect_running opens (record s { reconnects_due = s.reconnects_due - 1 }) w.up)
        (connect-Outcome opens k _ (ground arith))

  outage-Outcome :
      (rest : List Bool) (j k : ℕ) (s : Service)
      → j + length rest ≡ k
      → k ≤ config.max_reconnect_attempts
      → Outcome j s
      → Outcome k (outage h config rest s)
  unfolding outage
  outage-Outcome [] j k s e le o = let e' : j ≡ k = omega arith in rw (← e') o
  outage-Outcome (opens ∷ rest) j k s e le o =
      outage-Outcome rest (j + 1) k (attempt h config opens s) (omega arith) le
        (attempt-Outcome opens (j + 1) s (unfold Outcome in o.0 (omega arith)))

  -- With a limit below 2^32 - 1, while the broker cannot be reached, each failed attempt h config up to the limit leaves one reconnect
  -- scheduled, and the one behind the last makes the service exit with code 1: it makes as many
  -- reconnects as configured, whether the attempts fail at once or after the connection opened.
  pub outage_gives_up :
      (opens : Bool) (rest : List Bool)
      → (length rest < config.max_reconnect_attempts
          → Waiting config (length rest + 1) (outage h config rest (first_attempt h config opens)))
        × (length rest ≡ config.max_reconnect_attempts
            → GaveUp (outage h config rest (first_attempt h config opens)))
  unfolding Outcome
  outage_gives_up opens rest = (
    λ lt.
        (outage-Outcome rest 0 (length rest) _ (omega arith) (omega arith)
            (first_attempt-Outcome opens)).0
          lt,
    λ e.
        (outage-Outcome rest 0 (length rest) _ (omega arith) (omega arith)
            (first_attempt-Outcome opens)).1
          e,
  )
