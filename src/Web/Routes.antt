-- ===== src/Web/Routes.antt =====
-- What the HTTP pages answer.
use habr_parser.Base.{
  ◌^◌, ◌<◌, ◌≡◌, List, ◌∷◌, Bool, ◌⊎◌, Option, none, some, arith, Bytes, utf8, bytes_eq_iff,
}
use habr_parser.Double.{Double}
use habr_parser.Json.{Json, JsonLaws}
use habr_parser.Messages.{DigestReadyMessage}
use habr_parser.Codec.{decode_digest, digest_to_json}
use habr_parser.Codec.RoundTrip.{digest_from_json-digest_to_json}
use habr_parser.Web.{handle_http_request, path_of, Response, api_reply}

-- The paths that are served.
abbrev pub IsServed : Bytes → Type 0
IsServed path =
    (path ≡ utf8 "/")
    ⊎ (path ≡ utf8 "/index.html")
    ⊎ (path ≡ utf8 "/api/digest")
    ⊎ (path ≡ utf8 "/healthz")

api_reply_body : (o : Option Bytes) {r : Response} → api_reply o ≡ some r → o ≡ some r.body
api_reply_body none h = cc
api_reply_body (some body) h = ground arith

module _ {F : Type 0} (fl : Double F) (j : Json F) where
  -- A request is answered with status 200 exactly when its path is served, and with 404 and a fixed
  -- text, which holds nothing of the request, exactly when it is not.
  handle_http_request_status :
      (connected : Bool) (digests : List (DigestReadyMessage F)) (raw_path : Option Bytes)
      {r : Response}
      → handle_http_request fl j connected digests raw_path ≡ some r
      → ((r.status ≡ 200) × IsServed (path_of raw_path))
        ⊎ ((r.status ≡ 404) × (r.body ≡ utf8 "not found\n") × ¬ IsServed (path_of raw_path))
  unfolding handle_http_request
  handle_http_request_status connected digests raw_path e =
      let path = path_of raw_path in
      ground (
        arith,
        bytes_eq_iff path (utf8 "/"),
        bytes_eq_iff path (utf8 "/index.html"),
        bytes_eq_iff path (utf8 "/api/digest"),
        bytes_eq_iff path (utf8 "/healthz"),
      )

  -- The body of /api/digest reads back as the latest digest, if there is one, its period is below
  -- 2^32, its numbers are finite and the dump does not throw.
  pub handle_http_request_api :
      (laws : JsonLaws j) (connected : Bool) (digest : DigestReadyMessage F)
      (digests : List (DigestReadyMessage F)) {r : Response}
      → digest.period_hours < 2 ^ 32
      → laws.Finite (digest_to_json j digest)
      → handle_http_request fl j connected (digest ∷ digests) (some (utf8 "/api/digest")) ≡ some r
      → decode_digest j r.body ≡ some digest
  unfolding handle_http_request utf8
  handle_http_request_api laws connected digest digests h finite e =
      rw
        (
          laws.parse-dump_indented (digest_to_json j digest) finite (api_reply_body _ e),
          decode_digest,
        )
        (digest_from_json-digest_to_json j laws digest h)
