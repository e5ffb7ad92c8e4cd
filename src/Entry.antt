-- ===== src/Entry.antt =====
-- The processes: `main` of services/*/src/main.cpp, with what the constructors and destructors of the
-- services do outside of their event loop (`AmqpService`, `ArticleStore`, `WebService`). The calls of
-- libevent, evhttp, SQLite, libxml2 and libcurl are recorded in order, their answers are in `World`,
-- and an exception ends a constructor with `false`.
pub mod Resources
pub mod Exit
mod Tests
use habr_parser.Base.{
  ℕ, List, [], ◌∷◌, ◌++◌, Bool, true, false, Option, none, some, Bytes, utf8, if◌then◌else◌,
}
use habr_parser.Amqp.{Service}
use habr_parser.Hooks.Services.{Kind}

-- What is taken and must be given back.
pub data Resource : Type 0 where
  base timer sigterm sigint http db xml curl : Resource

-- The statements that run while the database is opened.
pub data Statement : Type 0 where
  journal_mode synchronous schema count : Statement

pub data Call : Type 0 where
  takes frees : Resource → Call
  -- `event_add`
  watches : Resource → Call
  -- of the pointers to the channel, the connection and the handler
  resets_link : Call
  set_service_name : Bytes → Call
  allow_get_only set_callback : Call
  busy_timeout : ℕ → Call
  exec : Statement → Call
  -- the event loop
  runs : Call

-- The answers: whether a pointer is not null, a code is no error, a statement does not throw.
pub record World : Type 0 where
  pub base_ok : Bool
  pub timer_ok : Bool
  pub sigterm_ok : Bool
  pub sigint_ok : Bool
  pub http_ok : Bool
  pub bind_ok : Bool
  pub open_ok : Bool
  -- whether `sqlite3_open_v2` gives a handle where it fails
  pub handle_on_failure : Bool
  pub journal_mode_ok : Bool
  pub synchronous_ok : Bool
  pub schema_ok : Bool
  pub count_ok : Bool
  -- the service when its loop ends; `none` where an exception leaves the loop
  pub ended : Option Service

abbrev pub name_of : Kind → Bytes
name_of Kind.fetching = utf8 "fetcher"
name_of Kind.parsing = utf8 "parser"
name_of Kind.storing = utf8 "storage"
name_of Kind.notifying = utf8 "notifier"
name_of Kind.showing = utf8 "web"

-- A step that may throw: its calls, and whether it returns.
abbrev pub Step : Type 0
Step = List Call × Bool

abbrev pub and_then : Step → Step → Step
and_then (calls, false) next = (calls, false)
and_then (calls, true) (calls', done) = (calls ++ calls', done)

abbrev pub exec_step : Statement → Bool → Step
exec_step statement ok = (exec statement ∷ [], ok)

-- `event_new`; the pointer may be null.
abbrev pub event_new : Resource → Bool → List Call
event_new r ok = if ok then takes r ∷ [] else []

-- `if (event != nullptr) event_free(event)`
abbrev pub event_free : Resource → Bool → List Call
event_free r ok = if ok then frees r ∷ [] else []

module _ (w : World) where
  -- `AmqpService::AmqpService`
  pub amqp_new : Bytes → Step
  amqp_new name =
      if w.base_ok
      then (
        set_service_name name
            ∷ takes base
            ∷ (event_new timer w.timer_ok
                ++ event_new sigterm w.sigterm_ok
                ++ event_new sigint w.sigint_ok
                ++ watches sigterm ∷ watches sigint ∷ []),
        true,
      )
      else (set_service_name name ∷ [], false)

  -- `AmqpService::~AmqpService`
  pub amqp_free : List Call
  amqp_free =
      event_free timer w.timer_ok
      ++ event_free sigterm w.sigterm_ok
      ++ event_free sigint w.sigint_ok
      ++ resets_link ∷ frees base ∷ []

  -- `ArticleStore::ApplySchema`
  pub apply_schema : Step
  apply_schema =
      and_then (exec_step journal_mode w.journal_mode_ok)
        (and_then (exec_step synchronous w.synchronous_ok) (exec_step schema w.schema_ok))

  -- `ArticleStore::ArticleStore`
  pub store_new : Step
  store_new =
      if w.open_ok
      then and_then (takes db ∷ busy_timeout 5000 ∷ [], true)
          (and_then apply_schema (exec_step count w.count_ok))
      else ((if w.handle_on_failure then takes db ∷ frees db ∷ [] else []), false)

  -- `WebService::StartHttpServer`
  pub start_http_server : Step
  start_http_server =
      if w.http_ok
      then (takes http ∷ allow_get_only ∷ set_callback ∷ [], w.bind_ok)
      else ([], false)

  -- What a service constructs behind its base.
  abbrev pub members_new : Kind → Step
  members_new Kind.fetching = ([], true)
  members_new Kind.parsing = ([], true)
  members_new Kind.storing = store_new
  members_new Kind.notifying = ([], true)
  members_new Kind.showing = start_http_server

  -- `~ArticleStore` and `~WebService`
  abbrev pub members_free : Kind → List Call
  members_free Kind.fetching = []
  members_free Kind.parsing = []
  members_free Kind.storing = frees db ∷ []
  members_free Kind.notifying = []
  members_free Kind.showing = frees http ∷ []

  -- Where the members throw, the base is destroyed; what a constructor that threw has taken is not.
  abbrev pub finish_new : Step → Step
  finish_new (calls, true) = (calls, true)
  finish_new (calls, false) = (calls ++ amqp_free, false)

  pub service_new : Kind → Step
  service_new k = and_then (amqp_new (name_of k)) (finish_new (members_new k))

  abbrev pub code_of : Option Service → ℕ
  code_of none = 1
  code_of (some s) = s.exit_code

  -- The `try` block.
  abbrev pub attempt : Kind → Step → List Call × ℕ
  attempt k (calls, false) = (calls, 1)
  attempt k (calls, true) = (calls ++ runs ∷ (members_free k ++ amqp_free), code_of w.ended)

  -- The three services that need no library: their `main` is the `try` block.
  abbrev pub plain_main : Kind → List Call × ℕ
  plain_main k =
      let (calls, code) = attempt k (service_new k) in (set_service_name (name_of k) ∷ calls, code)

  pub fetcher_main : List Call × ℕ
  fetcher_main =
      let (calls, code) = attempt Kind.fetching (service_new Kind.fetching) in
      (set_service_name (name_of Kind.fetching) ∷ takes curl ∷ (calls ++ frees curl ∷ []), code)

  pub parser_main : List Call × ℕ
  parser_main =
      let (calls, code) = attempt Kind.parsing (service_new Kind.parsing) in
      (set_service_name (name_of Kind.parsing) ∷ takes xml ∷ (calls ++ frees xml ∷ []), code)

  pub storage_main : List Call × ℕ
  storage_main = plain_main Kind.storing

  pub notifier_main : List Call × ℕ
  notifier_main = plain_main Kind.notifying

  pub web_main : List Call × ℕ
  web_main = plain_main Kind.showing

  -- The calls of a process, and its exit code.
  pub main : Kind → List Call × ℕ
  main Kind.fetching = fetcher_main
  main Kind.parsing = parser_main
  main Kind.storing = storage_main
  main Kind.notifying = notifier_main
  main Kind.showing = web_main
