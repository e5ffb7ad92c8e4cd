-- ===== src/Codec/RoundTrip.antt =====
-- What is written is read back.
use habr_parser.Base.{◌≡◌, refl, List, map, ◌^◌, ◌<◌, [], ◌∷◌, Option, some, Bytes, utf8, All}
use habr_parser.Json.{Json, JsonLaws}
use habr_parser.Messages.{
  RawArticlesMessage, ParsedArticle, ParsedArticlesMessage, DigestArticle, DigestReadyMessage,
}
use habr_parser.Codec.{
  raw_to_json, raw_from_json, encode_raw, decode_raw, encode_parsed, decode_parsed, encode_digest,
  decode_digest, traverse, article_to_json, article_from_json, parsed_to_json, parsed_from_json,
  digest_article_to_json, digest_article_from_json, digest_to_json, digest_from_json,
}

traverse-map {ℓ κ} :
    {A : Type ℓ} {B : Type κ} (read : B → Option A) (write : A → B)
    → ((a : A) → read (write a) ≡ some a)
    → (xs : List A) → traverse read (map write xs) ≡ some xs
traverse-map read write h [] = refl
traverse-map read write h (x ∷ xs) = rw (h x, traverse-map read write h xs)

module _ {F : Type 0} (j : Json F) (laws : JsonLaws j) where
  pub raw_from_json-raw_to_json :
      (m : RawArticlesMessage) → raw_from_json j (raw_to_json j m) ≡ some m
  unfolding raw_from_json raw_to_json utf8
  raw_from_json-raw_to_json m = simp (laws.at-obj, laws.get_str-str)

  strings_lem : (xs : List Bytes) → traverse j.get_str (map j.str xs) ≡ some xs
  strings_lem = traverse-map j.get_str j.str laws.get_str-str

  article_from_json-article_to_json :
      (a : ParsedArticle) → article_from_json j (article_to_json j a) ≡ some a
  unfolding article_from_json article_to_json utf8
  article_from_json-article_to_json a =
      simp (laws.at-obj, laws.get_str-str, laws.get_int-int, laws.get_arr-arr, strings_lem)

  -- A message of parsed articles is read back as it was written, every article and hub of it.
  pub parsed_from_json-parsed_to_json :
      (m : ParsedArticlesMessage) → parsed_from_json j (parsed_to_json j m) ≡ some m
  unfolding parsed_from_json parsed_to_json utf8
  parsed_from_json-parsed_to_json m = simp (
    laws.at-obj,
    laws.get_str-str,
    laws.get_arr-arr,
    traverse-map (article_from_json j) (article_to_json j) article_from_json-article_to_json,
  )

  digest_article_from_json-digest_article_to_json :
      (a : DigestArticle F) → digest_article_from_json j (digest_article_to_json j a) ≡ some a
  unfolding digest_article_from_json digest_article_to_json utf8
  digest_article_from_json-digest_article_to_json a = simp (
    laws.at-obj, laws.get_str-str, laws.get_int-int, laws.get_real-real, laws.get_arr-arr,
    strings_lem,
  )

  -- So is a digest, whose period is a 32-bit number.
  pub digest_from_json-digest_to_json :
      (m : DigestReadyMessage F)
      → m.period_hours < 2 ^ 32
      → digest_from_json j (digest_to_json j m) ≡ some m
  unfolding digest_from_json digest_to_json utf8
  digest_from_json-digest_to_json m h = simp (
    laws.at-obj,
    laws.get_str-str,
    laws.get_arr-arr,
    laws.get_uint-int m.period_hours h,
    traverse-map (digest_article_from_json j) (digest_article_to_json j)
        digest_article_from_json-digest_article_to_json,
  )

  pub strings-Finite : (xs : List Bytes) → All laws.Finite (map j.str xs)
  strings-Finite [] = tt
  strings-Finite (x ∷ xs) = (laws.Finite-str x, strings-Finite xs)

  pub raw_to_json-Finite : (m : RawArticlesMessage) → laws.Finite (raw_to_json j m)
  unfolding raw_to_json
  raw_to_json-Finite m = laws.Finite-obj _ (
    laws.Finite-str _,
    (laws.Finite-str _, (laws.Finite-str _, (laws.Finite-str _, (laws.Finite-str _, tt)))),
  )

  article_to_json-Finite : (a : ParsedArticle) → laws.Finite (article_to_json j a)
  unfolding article_to_json
  article_to_json-Finite a =
      let hubs = laws.Finite-arr _ (strings-Finite a.hubs) in
      laws.Finite-obj _ (
        laws.Finite-str _,
        (
          laws.Finite-str _,
          (
            laws.Finite-str _,
            (
              laws.Finite-str _,
              (
                laws.Finite-str _,
                (
                  hubs,
                  (
                    laws.Finite-str _,
                    (
                      laws.Finite-str _,
                      (
                        laws.Finite-int _,
                        (laws.Finite-int _, (laws.Finite-int _, (laws.Finite-int _, tt))),
                      ),
                    ),
                  ),
                ),
              ),
            ),
          ),
        ),
      )

  articles-Finite : (xs : List ParsedArticle) → All laws.Finite (map (article_to_json j) xs)
  articles-Finite [] = tt
  articles-Finite (x ∷ xs) = (article_to_json-Finite x, articles-Finite xs)

  pub parsed_to_json-Finite : (m : ParsedArticlesMessage) → laws.Finite (parsed_to_json j m)
  unfolding parsed_to_json
  parsed_to_json-Finite m = laws.Finite-obj _ (
    laws.Finite-str _,
    (
      laws.Finite-str _,
      (
        laws.Finite-str _,
        (laws.Finite-str _, (laws.Finite-arr _ (articles-Finite m.articles), tt)),
      ),
    ),
  )

  -- A page message that can be written as text is read from that text as it was.
  pub decode_raw-encode_raw :
      (m : RawArticlesMessage) {text : Bytes}
      → encode_raw j m ≡ some text
      → decode_raw j text ≡ some m
  decode_raw-encode_raw m e =
      rw (laws.parse-dump (raw_to_json j m) (raw_to_json-Finite m) e, decode_raw)
        (raw_from_json-raw_to_json m)

  -- A message of parsed articles that can be written as text is read from that text as it was,
  -- every article and hub of it.
  pub decode_parsed-encode_parsed :
      (m : ParsedArticlesMessage) {text : Bytes}
      → encode_parsed j m ≡ some text
      → decode_parsed j text ≡ some m
  decode_parsed-encode_parsed m e =
      rw (laws.parse-dump (parsed_to_json j m) (parsed_to_json-Finite m) e, decode_parsed)
        (parsed_from_json-parsed_to_json m)

  -- A digest whose period is below 2^32, and whose numbers are finite, is read as it was published.
  pub decode_digest-encode_digest :
      (m : DigestReadyMessage F) {text : Bytes}
      → m.period_hours < 2 ^ 32
      → laws.Finite (digest_to_json j m)
      → encode_digest j m ≡ some text
      → decode_digest j text ≡ some m
  decode_digest-encode_digest m h finite e =
      rw (laws.parse-dump (digest_to_json j m) finite e, decode_digest)
        (digest_from_json-digest_to_json m h)

  -- With a JSON library that meets the laws, each of the three messages that travel over the broker is
  -- read from its text as it was, if it can be written: a page, the articles parsed from it, every
  -- article and hub of them, and a digest, if its period is below 2^32 and its numbers are finite.
  pub decode-encode :
      (raw : RawArticlesMessage) (parsed : ParsedArticlesMessage) (digest : DigestReadyMessage F)
      {raw_text parsed_text digest_text : Bytes}
      → encode_raw j raw ≡ some raw_text
      → encode_parsed j parsed ≡ some parsed_text
      → digest.period_hours < 2 ^ 32
      → laws.Finite (digest_to_json j digest)
      → encode_digest j digest ≡ some digest_text
      → (decode_raw j raw_text ≡ some raw)
        × (decode_parsed j parsed_text ≡ some parsed)
        × (decode_digest j digest_text ≡ some digest)
  decode-encode raw parsed digest er ep h finite ed = (
    decode_raw-encode_raw raw er,
    decode_parsed-encode_parsed parsed ep,
    decode_digest-encode_digest digest h finite ed,
  )
