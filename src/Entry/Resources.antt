-- ===== src/Entry/Resources.antt =====
-- What a process takes it gives back.
use habr_parser.Base.{
  ℕ, List, [], ◌∷◌, ◌≡◌, Bool, true, false, not, ◌&&◌, Option, none, some, ◌==◌, if◌then◌else◌,
  arith,
}
use habr_parser.Hooks.Services.{Kind}
use habr_parser.Entry.{
  Resource, base, timer, sigterm, sigint, http, db, xml, curl, Call, takes, frees, watches, World,
  main, amqp_new, amqp_free, apply_schema, store_new, start_http_server, service_new, fetcher_main,
  parser_main, storage_main, notifier_main, web_main,
}

abbrev number : Resource → ℕ
number base = 0
number timer = 1
number sigterm = 2
number sigint = 3
number http = 4
number db = 5
number xml = 6
number curl = 7

abbrev holds : Resource → List Resource → Bool
holds r [] = false
holds r (q ∷ qs) = if number r == number q then true else holds r qs

abbrev without : Resource → List Resource → List Resource
without r [] = []
without r (q ∷ qs) = if number r == number q then qs else q ∷ without r qs

-- An event needs its loop.
abbrev usable : Resource → List Resource → Bool
usable timer held = holds base held
usable sigterm held = holds base held
usable sigint held = holds base held
usable _ held = true

-- One call; `none` where it takes what is held, or uses or frees what is not, or an event without
-- its loop.
abbrev step : Call → List Resource → Option (List Resource)
step (takes r) held = if not (holds r held) && usable r held then some (r ∷ held) else none
step (frees r) held = if holds r held && usable r held then some (without r held) else none
step (watches r) held = if holds r held then some held else none
step _ held = some held

abbrev bind :
    Option (List Resource) → (List Resource → Option (List Resource)) → Option (List Resource)
bind none f = none
bind (some held) f = f held

-- What is held behind the calls.
abbrev pub held_after : List Call → List Resource → Option (List Resource)
held_after [] held = some held
held_after (c ∷ cs) held = bind (step c held) (held_after cs)

-- The two leaks.
abbrev pub leaked : World → Kind → List Resource
leaked w Kind.storing =
    if w.base_ok
      && w.open_ok
      && not (w.journal_mode_ok && w.synchronous_ok && w.schema_ok && w.count_ok)
    then db ∷ []
    else []
leaked w Kind.showing = if w.base_ok && w.http_ok && not w.bind_ok then http ∷ [] else []
leaked w _ = []

-- Where the events of the signals can be made, a process never takes what it holds, never uses or
-- frees what it does not hold, and at its end holds nothing, but for two cases: a database that was
-- opened and then could not be prepared, and an HTTP server that could not be bound.
pub main_held :
    (w : World) (k : Kind)
    → w.sigterm_ok ≡ true
    → w.sigint_ok ≡ true
    → held_after (main w k).0 [] ≡ some (leaked w k)
unfolding main amqp_new amqp_free apply_schema store_new start_http_server service_new fetcher_main
    parser_main storage_main notifier_main web_main
main_held w Kind.fetching e f = ground (arith, e, f)
main_held w Kind.parsing e f = ground (arith, e, f)
main_held w Kind.storing e f = ground (arith, e, f)
main_held w Kind.notifying e f = ground (arith, e, f)
main_held w Kind.showing e f = ground (arith, e, f)
