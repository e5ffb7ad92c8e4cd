-- ===== src/Codec/Finite.antt =====
-- Where the scores of a digest are finite, so is the digest.
use habr_parser.Codec.RoundTrip.{strings-Finite}
use habr_parser.Base.{List, map, [], ◌∷◌, All}
use habr_parser.Json.{Json, JsonLaws}
use habr_parser.Messages.{DigestArticle, DigestReadyMessage}
use habr_parser.Codec.{digest_article_to_json, digest_to_json}

module _ {F : Type 0} (j : Json F) (laws : JsonLaws j) where
  -- The score is neither infinite nor NaN.
  abbrev pub FiniteScore : DigestArticle F → Type 0
  FiniteScore a = laws.Finite (j.real a.score)

  digest_article_to_json-Finite :
      (a : DigestArticle F) → FiniteScore a → laws.Finite (digest_article_to_json j a)
  unfolding digest_article_to_json
  digest_article_to_json-Finite a finite =
      let hubs = laws.Finite-arr _ (strings-Finite j laws a.hubs) in
      laws.Finite-obj _ (
        laws.Finite-str _,
        (
          laws.Finite-str _,
          (
            laws.Finite-str _,
            (
              laws.Finite-str _,
              (
                laws.Finite-str _,
                (
                  hubs,
                  (
                    laws.Finite-int _,
                    (
                      laws.Finite-int _,
                      (laws.Finite-int _, (laws.Finite-int _, (finite, (laws.Finite-str _, tt)))),
                    ),
                  ),
                ),
              ),
            ),
          ),
        ),
      )

  digest_articles-Finite :
      (xs : List (DigestArticle F))
      → All FiniteScore xs
      → All laws.Finite (map (digest_article_to_json j) xs)
  digest_articles-Finite [] finite = tt
  digest_articles-Finite (x ∷ xs) (finite, rest) =
      (digest_article_to_json-Finite x finite, digest_articles-Finite xs rest)

  pub digest_to_json-Finite :
      (m : DigestReadyMessage F) → All FiniteScore m.articles → laws.Finite (digest_to_json j m)
  unfolding digest_to_json
  digest_to_json-Finite m finite = laws.Finite-obj _ (
    laws.Finite-str _,
    (
      laws.Finite-str _,
      (
        laws.Finite-str _,
        (laws.Finite-int _, (laws.Finite-arr _ (digest_articles-Finite m.articles finite), tt)),
      ),
    ),
  )
