-- ===== src/Entry/Tests.antt =====
-- A process that starts, gets a signal and ends, and two that fail to start.
use habr_parser.Base.{arith, ◌≡◌, refl, [], ◌∷◌, Bool, true, false, none, some, utf8, Option}
use habr_parser.Double.Whole.{whole}
use habr_parser.Parser.Page.Lines.{lines}
use habr_parser.Json.Frames.{frames_json}
use habr_parser.Storage.Engine.Memory.{memory}
use habr_parser.Amqp.{Service, Hooks, start}
use habr_parser.Amqp.Recovery.{start_failed, start_failed_signalled}
use habr_parser.Amqp.Step.{Event, dispatch, started}
use habr_parser.Amqp.Ending.{here, more}
use habr_parser.Hooks.Services.{Kind, hooks_of}
use habr_parser.Samples.{amqp, setup, input}
use habr_parser.Entry.{
  World, http, base, timer, sigterm, sigint, takes, frees, watches, resets_link, set_service_name,
  allow_get_only, set_callback, main, web_main, service_new, amqp_new, amqp_free, start_http_server,
}
use habr_parser.Entry.Resources.{held_after, leaked, main_held}
use habr_parser.Entry.Exit.{requested, ExitsWith, main_signalled}

abbrev world : Bool → Option Service → World
world bind_ok ended = record {
  base_ok = true;
  timer_ok = true;
  sigterm_ok = true;
  sigint_ok = true;
  http_ok = true;
  bind_ok = bind_ok;
  open_ok = true;
  handle_on_failure = true;
  journal_mode_ok = true;
  synchronous_ok = true;
  schema_ok = true;
  count_ok = true;
  ended = ended;
}

abbrev serving : Hooks
serving = hooks_of whole frames_json lines memory setup Kind.showing input

-- The broker is not there, and the signal comes while a reconnect is pending, which then comes up.
abbrev waiting : Service
waiting = start serving false amqp

abbrev left : Service
left = dispatch serving (Event.reconnect true) (dispatch serving Event.signal waiting)

-- Where the port is taken, the server that was created is not freed.
port_taken : main (world false none) Kind.showing ≡ (
  set_service_name (utf8 "web")
      ∷ set_service_name (utf8 "web")
      ∷ takes base
      ∷ takes timer
      ∷ takes sigterm
      ∷ takes sigint
      ∷ watches sigterm
      ∷ watches sigint
      ∷ takes http
      ∷ allow_get_only
      ∷ set_callback
      ∷ frees timer
      ∷ frees sigterm
      ∷ frees sigint
      ∷ resets_link
      ∷ frees base
      ∷ [],
  1,
)
unfolding main web_main service_new amqp_new amqp_free start_http_server
port_taken = refl

main_held_example :
    held_after (main (world false none) Kind.showing).0 []
    ≡ some (leaked (world false none) Kind.showing)
main_held_example = main_held (world false none) Kind.showing refl refl

main_signalled_example :
    ExitsWith whole frames_json lines memory setup (world true (some left)) Kind.showing left
    × (left.connects ≡ waiting.connects)
main_signalled_example =
    let (_, up) = start_failed serving amqp (omega arith) in
    let (can, asked) = start_failed_signalled serving amqp (omega arith) in
    main_signalled whole frames_json lines memory setup (world true (some left)) Kind.showing amqp
      input (started input false) up (more here input (Event.reconnect true) can) (requested asked)
