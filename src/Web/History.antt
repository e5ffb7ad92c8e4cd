-- ===== src/Web/History.antt =====
-- The history is the newest digests, newest first, and never more than configured.
use mathlib.Core.List.{reverse-cons}
use habr_parser.Base.{
  ℕ, suc, zero, ◌≤◌, ◌≡◌, refl, sym, ap, ◌∙◌, List, [], ◌∷◌, ◌++◌, append_assoc, append-nil,
  reverse, Option, none, some, arith, Bytes, length, take, take_all, take-take, ltb, ltb→lt,
  if_split,
}
use habr_parser.Json.{Json}
use habr_parser.Double.{Double}
use habr_parser.Messages.{DigestReadyMessage}
use habr_parser.Codec.{decode_digest}
use habr_parser.Config.{WebConfig}
use habr_parser.Amqp.{Ack}
use habr_parser.Web.{pop_back, shrink, push_history, keep_digest, handle_digest_ready}

module _ {ℓ} {A : Type ℓ} where
  length-pop_back : (x : A) (xs : List A) → length (pop_back (x ∷ xs)) ≡ length xs
  unfolding pop_back
  length-pop_back x [] = refl
  length-pop_back x (y ∷ xs) = ap suc (length-pop_back y xs)

  take-pop_back :
      (n : ℕ) (x : A) (xs : List A) → n ≤ length xs → take n (pop_back (x ∷ xs)) ≡ take n (x ∷ xs)
  unfolding pop_back
  take-pop_back zero x xs h = refl
  take-pop_back (suc n) x [] h = absurd (omega arith)
  take-pop_back (suc n) x (y ∷ xs) h = ap (◌∷◌ x) (take-pop_back n y xs (omega arith))

  -- The loop ends with the first `limit` elements.
  pub shrink-take :
      (fuel limit : ℕ) (xs : List A) → length xs ≤ fuel → shrink fuel limit xs ≡ take limit xs
  unfolding shrink
  shrink-take zero limit xs h = sym (take_all limit xs (omega arith))
  shrink-take (suc fuel) limit [] h =
      if_split (λ r. r ≡ take limit []) (ltb limit 0)
        (λ e. absurd (omega (arith, ltb→lt limit 0 e))) (λ e. sym (take_all limit [] (omega arith)))
  shrink-take (suc fuel) limit (x ∷ xs) h =
      if_split (λ r. r ≡ take limit (x ∷ xs)) (ltb limit (length (x ∷ xs)))
        (λ e.
          shrink-take fuel limit (pop_back (x ∷ xs)) (omega (arith, length-pop_back x xs))
          ∙ take-pop_back limit x xs (ground arith))
        (λ e. sym (take_all limit (x ∷ xs) (ground arith)))

  push_history-take :
      (limit : ℕ) (x : A) (xs : List A) → push_history limit x xs ≡ take limit (x ∷ xs)
  unfolding push_history
  push_history-take limit x xs = shrink-take (length (x ∷ xs)) limit (x ∷ xs) (omega arith)

  take-cons-take : (n : ℕ) (x : A) (xs : List A) → take n (x ∷ take n xs) ≡ take n (x ∷ xs)
  take-cons-take zero x xs = refl
  take-cons-take (suc n) x xs = ap (◌∷◌ x) (take-take n (suc n) xs (omega arith))

abbrev prepend {ℓ} : {A : Type ℓ} → Option A → List A → List A
prepend none xs = xs
prepend (some x) xs = x ∷ xs

module _ {F : Type 0} (fl : Double F) (j : Json F) (config : WebConfig) where
  -- The deliveries in their order.
  unfoldable pub receive_all :
      List Bytes → List (DigestReadyMessage F) → List (DigestReadyMessage F)
  receive_all [] digests = digests
  receive_all (payload ∷ payloads) digests =
      receive_all payloads (handle_digest_ready fl j config payload digests).0

  -- The digests among the payloads.
  pub digests_of : List Bytes → List (DigestReadyMessage F)
  digests_of [] = []
  digests_of (payload ∷ payloads) = prepend (decode_digest j payload) (digests_of payloads)

  -- One delivery of a digest.
  pub handle_digest_ready-take :
      (payload : Bytes) (m : DigestReadyMessage F) (digests : List (DigestReadyMessage F))
      → decode_digest j payload ≡ some m
      → handle_digest_ready fl j config payload digests
        ≡ (take config.history_size (m ∷ digests), some Ack.ack)
  unfolding handle_digest_ready
  handle_digest_ready-take payload m digests e =
      rw e (ap (λ ds. (ds, some Ack.ack)) (push_history-take config.history_size m digests))

  receive_all-from :
      (payloads : List Bytes) (seen : List (DigestReadyMessage F))
      → receive_all payloads (take config.history_size seen)
        ≡ take config.history_size (reverse (digests_of payloads) ++ seen)
  unfolding receive_all digests_of handle_digest_ready
  receive_all-from [] seen = refl
  receive_all-from (payload ∷ payloads) seen =
      elim (decode_digest j payload)
        as (λ d.
          receive_all payloads (keep_digest fl j n d (take n seen)).0
          ≡ take n (reverse (prepend d (digests_of payloads)) ++ seen)) [
            | none ↦ receive_all-from payloads seen
            | some digest ↦
                ap (receive_all payloads)
                  (push_history-take n digest (take n seen) ∙ take-cons-take n digest seen)
                ∙ receive_all-from payloads (digest ∷ seen)
                ∙ ap (take n) (
                    sym (
                      ap (λ t. t ++ seen) (reverse-cons digest (digests_of payloads))
                      ∙ append_assoc (reverse (digests_of payloads)) (digest ∷ []) seen))
          ]
    where
      open config use {history_size as n}

  -- After any deliveries the service keeps the newest digests among them, newest first, at most
  -- `history_size` of them; a payload that is no digest changes nothing.
  pub receive_all-newest :
      (payloads : List Bytes)
      → receive_all payloads [] ≡ take config.history_size (reverse (digests_of payloads))
  receive_all-newest payloads =
      ap (receive_all payloads) (sym (take_all config.history_size [] (omega arith)))
      ∙ receive_all-from payloads []
      ∙ ap (take config.history_size) (append-nil _)
