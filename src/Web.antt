-- ===== src/Web.antt =====
-- `WebService` of services/web/src/web_service.cpp: the history of digests and the HTTP pages. The
-- deque is a list, its front first; evhttp and the JSON library are parameters.
pub mod History
pub mod Routes
pub mod Run
mod Tests
use habr_parser.Base.{
  ℕ, suc, zero, List, [], ◌∷◌, Bool, true, false, ◌||◌, Option, none, some, Bytes, utf8, bytes_eq,
  length, ltb, if◌then◌else◌,
}
use habr_parser.Double.{Double}
use habr_parser.Json.{Json}
use habr_parser.Messages.{DigestReadyMessage, digest_ready_exchange, digest_web_queue}
use habr_parser.Codec.{decode_digest, digest_to_json}
use habr_parser.Config.{WebConfig}
use habr_parser.Html.{render_page}
use habr_parser.Amqp.{Service, Ack, declare_fanout_exchange, declare_queue, bind_queue, consume}

unfoldable pub on_channel_ready : WebConfig → Service → Service
on_channel_ready config s = consume digest_web_queue config.prefetch (
    bind_queue digest_web_queue digest_ready_exchange
      (declare_queue digest_web_queue (declare_fanout_exchange digest_ready_exchange s)))

module _ {ℓ} {A : Type ℓ} where
  pub pop_back : List A → List A
  pop_back [] = []
  pop_back (x ∷ []) = []
  pop_back (x ∷ y ∷ xs) = x ∷ pop_back (y ∷ xs)

  -- `while (size > limit) pop_back();`, with fuel for the rounds.
  pub shrink : ℕ → ℕ → List A → List A
  shrink zero limit xs = xs
  shrink (suc fuel) limit xs =
      let rest = shrink fuel limit (pop_back xs) in if ltb limit (length xs) then rest else xs

  -- Each round takes an element off, so the length is fuel enough.
  pub push_history : ℕ → A → List A → List A
  push_history limit x xs = shrink (length (x ∷ xs)) limit (x ∷ xs)

pub record Response : Type 0 where
  pub status : ℕ
  pub reason : Bytes
  pub content_type : Bytes
  pub cache_control : Bytes
  pub body : Bytes

abbrev pub reply : ℕ → Bytes → Bytes → Bytes → Response
reply status reason content_type body = record {
  status = status;
  reason = reason;
  content_type = content_type;
  cache_control = utf8 "no-store";
  body = body;
}

abbrev pub api_reply : Option Bytes → Option Response
api_reply none = none
api_reply (some body) = some (reply 200 (utf8 "OK") (utf8 "application/json; charset=utf-8") body)

-- A missing or empty path is the root.
abbrev pub path_of : Option Bytes → Bytes
path_of none = utf8 "/"
path_of (some []) = utf8 "/"
path_of (some (c ∷ path)) = c ∷ path

module _ {F : Type 0} (fl : Double F) (j : Json F) where
  abbrev pub keep_digest :
      ℕ
      → Option (DigestReadyMessage F)
      → List (DigestReadyMessage F)
      → List (DigestReadyMessage F) × Option Ack
  keep_digest limit none digests = (digests, some Ack.reject)
  keep_digest limit (some digest) digests = (push_history limit digest digests, some Ack.ack)

  -- `HandleDigestReady`, on the history that the service keeps
  pub handle_digest_ready :
      WebConfig → Bytes → List (DigestReadyMessage F) → List (DigestReadyMessage F) × Option Ack
  handle_digest_ready config payload digests =
      keep_digest config.history_size (decode_digest j payload) digests

  -- No digest yet is an empty object. `none`: the dump throws.
  abbrev pub latest_json : List (DigestReadyMessage F) → Option Bytes
  latest_json [] = some (utf8 "{}")
  latest_json (digest ∷ digests) = j.dump_indented (digest_to_json j digest)

  -- `HandleHttpRequest`: `connected` is the state of the broker link.
  pub handle_http_request : Bool → List (DigestReadyMessage F) → Option Bytes → Option Response
  handle_http_request connected digests raw_path =
      let path = path_of raw_path in
      if bytes_eq path (utf8 "/") || bytes_eq path (utf8 "/index.html")
      then some (reply 200 (utf8 "OK") (utf8 "text/html; charset=utf-8") (render_page fl digests))
      else if bytes_eq path (utf8 "/api/digest")
      then api_reply (latest_json digests)
      else if bytes_eq path (utf8 "/healthz")
      then some (
          reply 200 (utf8 "OK") (utf8 "text/plain; charset=utf-8")
            (if connected then utf8 "ok\n" else utf8 "degraded: no broker connection\n"))
      else some
          (reply 404 (utf8 "Not Found") (utf8 "text/plain; charset=utf-8") (utf8 "not found\n"))
