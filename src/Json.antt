-- ===== src/Json.antt =====
-- The JSON library, nlohmann_json, which is not part of the repository: its values and the calls
-- that the program makes are the fields of `Json`, and what its documentation promises of them is
-- `JsonLaws`. `none` stands for an exception. `F` stands for the values of `double`.
pub mod Frames
use habr_parser.Base.{
  ℕ, ◌^◌, ◌<◌, ◌≡◌, ℤ, pos, List, [], ◌∷◌, Bool, true, false, not, ◌&&◌, ◌||◌, Option, none, some,
  Bytes, bytes_eq, All, if◌then◌else◌,
}

pub record Json (F : Type 0) : Type 1 where
  pub Value : Type 0
  pub str : Bytes → Value
  pub int : ℤ → Value
  pub real : F → Value
  pub arr : List Value → Value
  -- an object that is built member by member
  pub obj : List (Bytes × Value) → Value
  -- `j.at(key)` throws unless `j` is an object with this key
  pub at : Bytes → Value → Option Value
  -- `get<T>()` throws on a value of another kind
  pub get_str : Value → Option Bytes
  pub get_int : Value → Option ℤ
  pub get_uint : Value → Option ℕ
  pub get_real : Value → Option F
  pub get_arr : Value → Option (List Value)
  -- `dump()` throws on text that is not UTF-8; `dump(2)` indents
  pub dump : Value → Option Bytes
  pub dump_indented : Value → Option Bytes
  pub parse : Bytes → Option Value

module _ {ℓ} {V : Type ℓ} where
  abbrev pub lookup : Bytes → List (Bytes × V) → Option V
  lookup k [] = none
  lookup k ((j, v) ∷ m) = if bytes_eq j k then some v else lookup k m

  abbrev has_key : Bytes → List (Bytes × V) → Bool
  has_key k [] = false
  has_key k ((j, v) ∷ m) = bytes_eq j k || has_key k m

  -- No key stands twice.
  abbrev pub distinct_keys : List (Bytes × V) → Bool
  distinct_keys [] = true
  distinct_keys ((j, v) ∷ m) = not (has_key j m) && distinct_keys m

pub record JsonLaws {F : Type 0} (j : Json F) : Type 1 where
  pub get_str-str : (s : Bytes) → j.get_str (j.str s) ≡ some s
  pub get_int-int : (i : ℤ) → j.get_int (j.int i) ≡ some i
  pub get_uint-int : (n : ℕ) → n < 2 ^ 32 → j.get_uint (j.int (pos n)) ≡ some n
  pub get_real-real : (x : F) → j.get_real (j.real x) ≡ some x
  pub get_arr-arr : (vs : List j.Value) → j.get_arr (j.arr vs) ≡ some vs
  pub at-obj :
      (key : Bytes) (members : List (Bytes × j.Value))
      → distinct_keys members ≡ true
      → j.at key (j.obj members) ≡ lookup key members
  -- The values that a text gives back: every number in them is finite.
  pub Finite : j.Value → Type 0
  pub Finite-str : (s : Bytes) → Finite (j.str s)
  pub Finite-int : (i : ℤ) → Finite (j.int i)
  pub Finite-arr : (vs : List j.Value) → All Finite vs → Finite (j.arr vs)
  pub Finite-obj :
      (members : List (Bytes × j.Value)) → All (λ m. Finite m.1) members → Finite (j.obj members)
  pub parse-dump :
      (v : j.Value) {text : Bytes} → Finite v → j.dump v ≡ some text → j.parse text ≡ some v
  pub parse-dump_indented :
      (v : j.Value) {text : Bytes}
      → Finite v
      → j.dump_indented v ≡ some text
      → j.parse text ≡ some v
