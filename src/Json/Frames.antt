-- ===== src/Json/Frames.antt =====
-- An instance of `Json` over the whole numbers, on which the tests run: a value is its own text, a
-- tag and what belongs to it, where each part of an array or an object has its length before it.
use habr_parser.Base.{
  ℕ, zero, suc, ◌≤◌, ◌≡◌, refl, ap, List, [], ◌∷◌, ◌++◌, ℤ, pos, negsuc, Option, none, some, Bytes,
  ◌==◌, length, length-append, take, drop, arith, if◌then◌else◌,
}
use habr_parser.Json.{Json, JsonLaws, lookup}

abbrev framed : Bytes → Option Bytes
framed [] = none
framed (x ∷ xs) = some (x ∷ xs)

abbrev frames : List Bytes → Bytes
frames [] = []
frames (b ∷ bs) = length b ∷ b ++ frames bs

abbrev unframes : ℕ → Bytes → List Bytes
unframes zero xs = []
unframes (suc f) [] = []
unframes (suc f) (n ∷ xs) = take n xs ∷ unframes f (drop n xs)

abbrev flatten : List (Bytes × Bytes) → List Bytes
flatten [] = []
flatten ((k, v) ∷ m) = k ∷ v ∷ flatten m

abbrev pair_up : List Bytes → List (Bytes × Bytes)
pair_up [] = []
pair_up (k ∷ []) = []
pair_up (k ∷ v ∷ rest) = (k, v) ∷ pair_up rest

-- What stands behind a tag.
abbrev behind : ℕ → Bytes → Option Bytes
behind tag [] = none
behind tag (t ∷ s) = if t == tag then some s else none

abbrev read_parts : Bytes → List Bytes
read_parts s = unframes (length s) s

abbrev then_some {ℓ} : {A : Type ℓ} → (Bytes → A) → Option Bytes → Option A
then_some f none = none
then_some f (some s) = some (f s)

abbrev number : ℤ → Bytes
number (pos n) = 0 ∷ n ∷ []
number (negsuc n) = 1 ∷ n ∷ []

abbrev read_number : Bytes → ℤ
read_number [] = pos 0
read_number (s ∷ []) = pos 0
read_number (s ∷ n ∷ rest) = if s == 0 then pos n else negsuc n

abbrev natural : ℤ → Option ℕ
natural (pos n) = some n
natural (negsuc n) = none

abbrev get_natural : Option Bytes → Option ℕ
get_natural none = none
get_natural (some s) = natural (read_number s)

abbrev at_key : Bytes → Option Bytes → Option Bytes
at_key key none = none
at_key key (some s) = lookup key (pair_up (read_parts s))

abbrev pub frames_json : Json ℤ
frames_json = record {
  Value = Bytes;
  str = λ s. 1 ∷ s;
  int = λ i. 2 ∷ number i;
  real = λ i. 3 ∷ number i;
  arr = λ vs. 4 ∷ frames vs;
  obj = λ members. 5 ∷ frames (flatten members);
  at = λ key v. at_key key (behind 5 v);
  get_str = behind 1;
  get_int = λ v. then_some read_number (behind 2 v);
  get_uint = λ v. get_natural (behind 2 v);
  get_real = λ v. then_some read_number (behind 3 v);
  get_arr = λ v. then_some read_parts (behind 4 v);
  dump = framed;
  dump_indented = framed;
  parse = framed;
}

read-number : (i : ℤ) → read_number (number i) ≡ i
read-number (pos n) = refl
read-number (negsuc n) = refl

take-length : (xs ys : Bytes) → take (length xs) (xs ++ ys) ≡ xs
take-length [] ys = refl
take-length (x ∷ xs) ys = ap (◌∷◌ x) (take-length xs ys)

drop-length : (xs ys : Bytes) → drop (length xs) (xs ++ ys) ≡ ys
drop-length [] ys = refl
drop-length (x ∷ xs) ys = drop-length xs ys

length-frames : (bs : List Bytes) → length bs ≤ length (frames bs)
length-frames [] = omega arith
length-frames (b ∷ bs) = omega (arith, length-append b (frames bs), length-frames bs)

unframes-frames : (f : ℕ) (bs : List Bytes) → length bs ≤ f → unframes f (frames bs) ≡ bs
unframes-frames zero [] h = refl
unframes-frames (suc f) [] h = refl
unframes-frames zero (b ∷ bs) h = absurd (omega arith)
unframes-frames (suc f) (b ∷ bs) h =
    rw (take-length b (frames bs), drop-length b (frames bs), unframes-frames f bs (omega arith))
      refl

read_parts-frames : (bs : List Bytes) → read_parts (frames bs) ≡ bs
read_parts-frames bs = unframes-frames _ bs (length-frames bs)

pair_up-flatten : (m : List (Bytes × Bytes)) → pair_up (flatten m) ≡ m
pair_up-flatten [] = refl
pair_up-flatten ((k, v) ∷ m) = ap (◌∷◌ (k, v)) (pair_up-flatten m)

at-frames :
    (key : Bytes) (m : List (Bytes × Bytes))
    → lookup key (pair_up (read_parts (frames (flatten m)))) ≡ lookup key m
at-frames key m = rw (read_parts-frames (flatten m), pair_up-flatten m) refl

framed-framed : (v : Bytes) {text : Bytes} → framed v ≡ some text → framed text ≡ some v
framed-framed [] e = cc
framed-framed (x ∷ xs) {text} e = cc

natural-number : (n : ℕ) → natural (read_number (number (pos n))) ≡ some n
natural-number n = refl

pub frames-JsonLaws : JsonLaws frames_json
frames-JsonLaws = record {
  get_str-str = λ s. refl;
  get_int-int = λ i. ap some (read-number i);
  get_uint-int = λ n _. natural-number n;
  get_real-real = λ i. ap some (read-number i);
  get_arr-arr = λ vs. ap some (read_parts-frames vs);
  at-obj = λ key m _. at-frames key m;
  Finite = λ _. Unit;
  Finite-str = λ _. tt;
  Finite-int = λ _. tt;
  Finite-arr = λ _ _. tt;
  Finite-obj = λ _ _. tt;
  parse-dump = λ v _ e. framed-framed v e;
  parse-dump_indented = λ v _ e. framed-framed v e;
}

pub every-Finite : (v : Bytes) → frames-JsonLaws.Finite v
unfolding frames-JsonLaws
every-Finite v = tt
