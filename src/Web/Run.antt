-- ===== src/Web/Run.antt =====
-- What a reader of the web service gets, in any state of its loop.
use habr_parser.Base.{
  ℕ, List, [], ◌∷◌, ◌≡◌, refl, ap, ◌∙◌, true, false, Bool, some, Option, none, utf8, map, take,
  reverse, arith, Bytes,
}
use habr_parser.Double.{Double}
use habr_parser.Json.{Json}
use habr_parser.Messages.{DigestReadyMessage}
use habr_parser.Parser.Page.{Dom}
use habr_parser.Storage.Engine.{Sqlite}
use habr_parser.Config.{AmqpConfig}
use habr_parser.Amqp.{Service}
use habr_parser.Amqp.Run.{Run-Reach, Run-keep_all, keep_all}
use habr_parser.Amqp.Topology.{Has}
use habr_parser.Hooks.Topology.{web_needs}
use habr_parser.Hooks.Services.{Kind, Setup, Input, hooks_of, services-Told, services-Inv}
use habr_parser.Hooks.Runs.{RunOf, keep, deliveries}
use habr_parser.Web.{Response, reply, handle_http_request}
use habr_parser.Web.History.{receive_all, digests_of, receive_all-newest}

abbrev pub payload_of : {F : Type 0} {C : Type 0} → Input F C → Bytes
payload_of i = i.reading.payload

abbrev pub healthy : Response
healthy = reply 200 (utf8 "OK") (utf8 "text/plain; charset=utf-8") (utf8 "ok\n")

abbrev body_head : Option Response → ℕ
body_head none = 0
body_head (some r) = first r.body
  where
    first : Bytes → ℕ
    first [] = 0
    first (c ∷ cs) = c

module _ {F : Type 0} (fl : Double F) (j : Json F) (dom : Dom) (db : Sqlite F)
    (setup : Setup F) where
  receive_all-keep_all :
      (is : List (Input F db.Conn)) (digests : List (DigestReadyMessage F))
      → keep_all (keep fl j dom db setup Kind.showing) is digests
        ≡ receive_all fl j setup.web (map payload_of is) digests
  unfolding receive_all
  receive_all-keep_all [] digests = refl
  receive_all-keep_all (i ∷ is) digests = receive_all-keep_all is _

  connected_of :
      (connected : Bool) (digests : List (DigestReadyMessage F))
      → handle_http_request fl j connected digests (some (utf8 "/healthz")) ≡ some healthy
      → connected ≡ true
  unfolding handle_http_request utf8
  connected_of true digests e = refl
  connected_of false digests e = let e' = ap body_head e in absurd (omega (arith, e'))

  -- The digests of a run's deliveries, newest first, at most as many as configured.
  abbrev pub newest : List (Input F db.Conn) → List (DigestReadyMessage F)
  newest is = take setup.web.history_size (reverse (digests_of fl j setup.web (map payload_of is)))

  -- In every run of the web service from an empty history on, over any events in any order, the
  -- pages are made of the newest digests among all deliveries since the start, over every
  -- reconnect; and /healthz says ok only while the channel is open and the service's exchange and
  -- queue are declared.
  pub web_run :
      (config : AmqpConfig) {s : Service} {digests : List (DigestReadyMessage F)}
      (r : RunOf fl j dom db setup Kind.showing config [] s digests)
      → let shown = newest (deliveries fl j dom db setup Kind.showing config [] r) in
        ((path : Option Bytes)
          → handle_http_request fl j s.channel_ready digests path
            ≡ handle_http_request fl j s.channel_ready shown path)
        × (handle_http_request fl j s.channel_ready digests (some (utf8 "/healthz")) ≡ some healthy
            → (s.channel ≡ true) × Has web_needs s.sent)
  web_run config {s} {digests} r =
      let reach = Run-Reach (hooks_of fl j dom db setup Kind.showing) _ _ config [] r in
      let kept =
        Run-keep_all (hooks_of fl j dom db setup Kind.showing) _ _ config [] r
        ∙ receive_all-keep_all _ []
        ∙ receive_all-newest fl j setup.web _ in
      (
        λ path. ap (λ ds. handle_http_request fl j s.channel_ready ds path) kept,
        λ ok.
            let on = connected_of s.channel_ready digests ok in
            (
              (services-Inv fl j dom db setup Kind.showing config reach).usable on,
              (services-Told fl j dom db setup Kind.showing config reach).known on,
            ),
      )
