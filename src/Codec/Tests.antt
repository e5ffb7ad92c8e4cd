-- ===== src/Codec/Tests.antt =====
-- The codec over the instance of the JSON library on which the tests run.
use habr_parser.Base.{refl, ◌≡◌, some, utf8, arith}
use habr_parser.Json.Frames.{frames_json, frames-JsonLaws, every-Finite}
use habr_parser.Samples.{raw, parsed, digest}
use habr_parser.Codec.{
  raw_to_json, parsed_to_json, digest_to_json, decode_raw, decode_parsed, decode_digest,
}
use habr_parser.Codec.RoundTrip.{decode-encode}

decode-encode_example :
    (decode_raw frames_json (raw_to_json frames_json raw) ≡ some raw)
    × (decode_parsed frames_json (parsed_to_json frames_json parsed) ≡ some parsed)
    × (decode_digest frames_json (digest_to_json frames_json (digest (utf8 "t")))
        ≡ some (digest (utf8 "t")))
unfolding raw_to_json parsed_to_json digest_to_json
decode-encode_example =
    decode-encode frames_json frames-JsonLaws raw parsed (digest (utf8 "t")) refl refl (omega arith)
      (every-Finite _) refl
