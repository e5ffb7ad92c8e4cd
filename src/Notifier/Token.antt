-- ===== src/Notifier/Token.antt =====
-- The file names of the digests.
use habr_parser.Base.{
  ℕ, ◌≡◌, ◌++◌, refl, [], ◌∷◌, true, false, Bytes, All, arith, utf8, is_empty, if_split, ap,
}
use habr_parser.Notifier.{is_safe, safe_bytes, to_file_name_token, join_path}

abbrev pub IsSafe : ℕ → Type 0
IsSafe c = is_safe c ≡ true

safe_bytes-IsSafe : (value : Bytes) → All IsSafe (safe_bytes value)
unfolding safe_bytes
safe_bytes-IsSafe [] = tt
safe_bytes-IsSafe (c ∷ value) =
    (if_split IsSafe (is_safe c) (λ e. e) (λ _. refl), safe_bytes-IsSafe value)

safe_bytes_idle : (value : Bytes) → All IsSafe value → safe_bytes value ≡ value
unfolding safe_bytes
safe_bytes_idle [] h = refl
safe_bytes_idle (c ∷ value) (hc, h) = rw (hc, safe_bytes_idle value h) refl

-- Whatever the id of a digest, the token is a name of letters, digits, `-` and `_` alone, so with no
-- separator and no dot, and it is not empty.
pub to_file_name_token-IsSafe :
    (value : Bytes)
    → All IsSafe (to_file_name_token value) × (is_empty (to_file_name_token value) ≡ false)
unfolding to_file_name_token utf8
to_file_name_token-IsSafe value =
    if_split (λ t. All IsSafe t × (is_empty t ≡ false)) (is_empty (safe_bytes value))
      (λ _. ((refl, (refl, (refl, (refl, (refl, (refl, tt)))))), refl))
      (λ e. (safe_bytes-IsSafe value, e))

-- A token is its own token.
pub to_file_name_token-to_file_name_token :
    (value : Bytes) → to_file_name_token (to_file_name_token value) ≡ to_file_name_token value
to_file_name_token-to_file_name_token value =
    let (safe, ne) = to_file_name_token-IsSafe value in
    unfold to_file_name_token in rw (safe_bytes_idle (to_file_name_token value) safe, ne) refl

-- Two names in one directory are one path only if they are one name.
pub join_path_injective :
    (directory a b : Bytes) → join_path directory a ≡ join_path directory b → a ≡ b
unfolding join_path
join_path_injective [] a b e = e
join_path_injective (c ∷ []) a b e = ground arith
join_path_injective (c ∷ d ∷ directory) a b e = join_path_injective (d ∷ directory) a b (cc e)

-- What stands behind a path is a suffix of the name.
pub join_path-append :
    (directory a b : Bytes) → join_path directory (a ++ b) ≡ join_path directory a ++ b
unfolding join_path
join_path-append [] a b = refl
join_path-append (c ∷ []) a b = ground arith
join_path-append (c ∷ d ∷ directory) a b = ap (◌∷◌ c) (join_path-append (d ∷ directory) a b)
