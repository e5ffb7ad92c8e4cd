-- ===== src/Web/Tests.antt =====
-- The web service after three deliveries.
use habr_parser.Base.{refl, ◌≡◌, [], ◌∷◌, true, some, utf8, arith}
use habr_parser.Double.Whole.{whole}
use habr_parser.Json.Frames.{frames_json, frames-JsonLaws, every-Finite}
use habr_parser.Codec.{digest_to_json, decode_digest}
use habr_parser.Samples.{digest}
use habr_parser.Web.{Response, handle_http_request, reply}
use habr_parser.Web.Routes.{handle_http_request_api}

abbrev api : Response
api =
    reply 200 (utf8 "OK") (utf8 "application/json; charset=utf-8")
      (digest_to_json frames_json (digest (utf8 "t")))

asked_api :
    handle_http_request whole frames_json true (digest (utf8 "t") ∷ []) (some (utf8 "/api/digest"))
    ≡ some api
unfolding handle_http_request digest_to_json utf8
asked_api = refl

handle_http_request_api_example : decode_digest frames_json api.body ≡ some (digest (utf8 "t"))
handle_http_request_api_example =
    handle_http_request_api whole frames_json frames-JsonLaws true (digest (utf8 "t")) []
      (omega arith) (every-Finite _) asked_api
