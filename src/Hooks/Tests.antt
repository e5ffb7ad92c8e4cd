-- ===== src/Hooks/Tests.antt =====
-- Runs of the services that deliver one message each.
use habr_parser.Base.{
  arith, false, ℤ, ◌≡◌, ◌≢◌, ◌⊎◌, [], ◌∷◌, map, true, none, some, utf8, Bytes, Option,
}
use habr_parser.Double.Whole.{whole}
use habr_parser.Parser.Page.Lines.{lines}
use habr_parser.Json.Frames.{frames_json}
use habr_parser.Storage.Engine.{View}
use habr_parser.Storage.Engine.Memory.{memory, memory-SqliteLaws}
use habr_parser.Storage.Table.{Row}
use habr_parser.Storage.Table.Keys.{find, SeenLike, UniqueKeys}
use habr_parser.Storage.Run.{storage_run}
use habr_parser.Notifier.{Files, latest_path}
use habr_parser.Notifier.Run.{Any, Written, notifier_run}
use habr_parser.Web.{handle_http_request}
use habr_parser.Web.Run.{healthy, newest, web_run}
use habr_parser.Amqp.{Service, start}
use habr_parser.Amqp.Step.{Event, CanHappen, dispatch, Reach}
use habr_parser.Amqp.Step as Step
use habr_parser.Amqp.Recovery.{start_failed}
use habr_parser.Hooks.Recovery.{Recovered, services-Recovered}
use habr_parser.Amqp.Run.{started, next, start-channel}
use habr_parser.Amqp.Settled.{tags}
use habr_parser.Amqp.Topology.{Has}
use habr_parser.Hooks.Topology.{web_needs}
use habr_parser.Hooks.Services.{Kind, Input, hooks_of}
use habr_parser.Hooks.Runs.{Kept, given, keep, RunOf, deliveries, tag_of, services-Settled}
use habr_parser.Samples.{amqp, setup, input, reading, parsed_text, digest_text, row}

-- A service that got one delivery with this payload.
abbrev delivery : Bytes → Input ℤ View
delivery payload = record input { reading = record reading { payload = payload } }

abbrev after_one : (k : Kind) → Bytes → Kept whole frames_json lines memory setup k → Service
after_one k payload first =
    let h = hooks_of whole frames_json lines memory setup k in
    let given_ = given whole frames_json lines memory setup k in
    dispatch (h (given_ (delivery payload) first)) Event.delivered
      (start (h (given_ input first)) true amqp)

open_channel :
    (k : Kind) (first : Kept whole frames_json lines memory setup k)
    → CanHappen Event.delivered (
        start
          (hooks_of whole frames_json lines memory setup k
            (given whole frames_json lines memory setup k input first))
          true
          amqp)
open_channel k first = start-channel _ amqp

one_delivery :
    (k : Kind) (payload : Bytes) (first : Kept whole frames_json lines memory setup k)
    → RunOf whole frames_json lines memory setup k amqp first
        (after_one k payload first)
        (keep whole frames_json lines memory setup k (delivery payload) first)
one_delivery k payload first =
    next (started input true) (delivery payload) Event.delivered (open_channel k first)

not_fetching : Kind.showing ≢ Kind.fetching
not_fetching e = cc

services-Settled_example :
    tags (after_one Kind.showing (digest_text (utf8 "1")) []).sent
    ≡ map (tag_of whole frames_json lines memory setup) (
        deliveries whole frames_json lines memory setup Kind.showing amqp []
          (one_delivery Kind.showing (digest_text (utf8 "1")) []))
services-Settled_example =
    services-Settled whole frames_json lines memory setup Kind.showing not_fetching amqp []
      (one_delivery Kind.showing (digest_text (utf8 "1")) [])

web_run_example :
    let payload = digest_text (utf8 "1") in
    let r = one_delivery Kind.showing payload [] in
    let s = after_one Kind.showing payload [] in
    let digests = keep whole frames_json lines memory setup Kind.showing (delivery payload) [] in
    let shown =
      newest whole frames_json lines memory setup
        (deliveries whole frames_json lines memory setup Kind.showing amqp [] r) in
    ((path : Option Bytes)
      → handle_http_request whole frames_json s.channel_ready digests path
        ≡ handle_http_request whole frames_json s.channel_ready shown path)
    × (handle_http_request whole frames_json s.channel_ready digests (some (utf8 "/healthz"))
          ≡ some healthy
        → (s.channel ≡ true) × Has web_needs s.sent)
web_run_example =
    web_run whole frames_json lines memory setup amqp
      (one_delivery Kind.showing (digest_text (utf8 "1")) [])

abbrev stored_once : View
stored_once = record { rows = row (utf8 "1") 7 ∷ []; draft = none }

storage_run_example :
    let c =
      keep whole frames_json lines memory setup Kind.storing (delivery parsed_text) stored_once in
    (UniqueKeys stored_once.rows → UniqueKeys c.rows)
    × ((key : Bytes) (old : Row)
        → SeenLike old (find key stored_once.rows)
        → SeenLike old (find key c.rows))
storage_run_example =
    storage_run whole frames_json lines memory memory-SqliteLaws setup amqp stored_once
      (one_delivery Kind.storing parsed_text stored_once)

abbrev no_files : Files
no_files path = none

notifier_run_example :
    let payload = digest_text (utf8 "1") in
    let files =
      keep whole frames_json lines memory setup Kind.notifying (delivery payload) no_files in
    let latest = files (latest_path setup.notifier) in
    (latest ≡ no_files (latest_path setup.notifier))
    ⊎ Any (Written whole frames_json lines memory setup latest) (
        deliveries whole frames_json lines memory setup Kind.notifying amqp no_files
          (one_delivery Kind.notifying payload no_files))
notifier_run_example =
    notifier_run whole frames_json lines memory setup amqp no_files
      (one_delivery Kind.notifying (digest_text (utf8 "1")) no_files)

abbrev failing : Service
failing = start (hooks_of whole frames_json lines memory setup Kind.storing input) false amqp

abbrev back : Service
back =
    let h = hooks_of whole frames_json lines memory setup Kind.storing input in
    dispatch h Event.ready (dispatch h (Event.reconnect true) failing)

services-Recovered_example :
    Reach (hooks_of whole frames_json lines memory setup Kind.storing) amqp back
    × Recovered setup Kind.storing failing back
services-Recovered_example =
    let (scheduled, up) =
      start_failed (hooks_of whole frames_json lines memory setup Kind.storing input) amqp
        (omega arith) in
    services-Recovered whole frames_json lines memory setup Kind.storing amqp input
      (Step.started input false) scheduled up
