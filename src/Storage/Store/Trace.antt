-- ===== src/Storage/Store/Trace.antt =====
-- The rows of a batch are those of its articles, under its trace id.
use mathlib.Core.Option.{some-injective}
use mathlib.Core.Path.{subst}
use habr_parser.Base.{◌≡◌, refl, List, [], ◌∷◌, ℤ, Option, none, some, Bytes}
use habr_parser.Json.{Json}
use habr_parser.Codec.{traverse, ◌>>=◌, strings_to_json}
use habr_parser.Messages.{ParsedArticle}
use habr_parser.Storage.Table.{Row}
use habr_parser.Storage.Engine.{Sqlite}
use habr_parser.Storage.Store.{c_str, bind_row, row_of}

-- The elements of two lists are in the relation, one by one, and neither list is longer.
abbrev pub Each {ℓ κ} : {A : Type ℓ} {B : Type κ} → (A → B → Type 0) → List A → List B → Type 0
Each R [] [] = Unit
Each R [] (y ∷ ys) = ⊥
Each R (x ∷ xs) [] = ⊥
Each R (x ∷ xs) (y ∷ ys) = R x y × Each R xs ys

-- What each result has to its element, the results have to the elements, one by one.
traverse-Each {ℓ κ} :
    {A : Type ℓ} {B : Type κ} (R : A → B → Type 0) (read : A → Option B)
    → ((a : A) (b : B) → read a ≡ some b → R a b)
    → (xs : List A) (ys : List B) → traverse read xs ≡ some ys
    → Each R xs ys
traverse-Each R read h [] ys e = subst (Each R []) (some-injective _ _ e) tt
traverse-Each {B = B} R read h (x ∷ xs) ys e =
    both (read x) (traverse read xs) refl (traverse-Each R read h xs) e
  where
    both :
        (o : Option B) (rest : Option (List B))
        → read x ≡ o
        → ((zs : List B) → rest ≡ some zs → Each R xs zs)
        → (o >>= λ y. rest >>= λ ys. some (y ∷ ys)) ≡ some ys
        → Each R (x ∷ xs) ys
    both none rest ox each e = cc
    both (some y) none ox each e = cc
    both (some y) (some zs) ox each e =
        subst (Each R (x ∷ xs)) (some-injective _ _ e) (h x y ox, each zs refl)

-- The row is that of the article, each text up to its first NUL, the hubs as a JSON array, seen at
-- this instant under this trace id.
pub record IsRowOf {F : Type 0} (j : Json F) (now_iso : Bytes) (now_epoch : ℤ) (trace_id : Bytes)
    (a : ParsedArticle) (r : Row) : Type 0 where
  pub article_id : r.article_id ≡ c_str a.article_id
  pub url : r.url ≡ c_str a.url
  pub title : r.title ≡ c_str a.title
  pub author : r.author ≡ c_str a.author
  pub hubs :
      (dumped : Bytes) × (j.dump (strings_to_json j a.hubs) ≡ some dumped) × (r.hubs ≡ c_str dumped)
  pub published_at : r.published_at ≡ c_str a.published_at
  pub complexity : r.complexity ≡ c_str a.complexity
  pub reading_time : r.reading_time ≡ c_str a.reading_time
  pub votes : r.votes ≡ a.votes
  pub views : r.views ≡ a.views
  pub bookmarks : r.bookmarks ≡ a.bookmarks
  pub comments : r.comments ≡ a.comments
  pub first_seen : (r.first_seen_at ≡ c_str now_iso) × (r.first_seen_epoch ≡ now_epoch)
  pub updated : (r.updated_at ≡ c_str now_iso) × (r.updated_epoch ≡ now_epoch)
  pub traced : r.trace_id ≡ c_str trace_id

module _ {F : Type 0} (j : Json F) (db : Sqlite F) (now_iso : Bytes) (now_epoch : ℤ)
    (trace_id : Bytes) where
  row_of-IsRowOf :
      (a : ParsedArticle) (o : Option Bytes) (r : Row)
      → j.dump (strings_to_json j a.hubs) ≡ o
      → row_of j db now_iso now_epoch trace_id a o ≡ some r
      → IsRowOf j now_iso now_epoch trace_id a r
  row_of-IsRowOf a none r d e = cc
  row_of-IsRowOf a (some dumped) r d e =
      subst (IsRowOf j now_iso now_epoch trace_id a) (some-injective _ _ e) (record {
        article_id = refl;
        url = refl;
        title = refl;
        author = refl;
        hubs = (dumped, d, refl);
        published_at = refl;
        complexity = refl;
        reading_time = refl;
        votes = refl;
        views = refl;
        bookmarks = refl;
        comments = refl;
        first_seen = (refl, refl);
        updated = (refl, refl);
        traced = refl;
      })

  bind_row-IsRowOf :
      (a : ParsedArticle) (r : Row)
      → bind_row j db now_iso now_epoch trace_id a ≡ some r
      → IsRowOf j now_iso now_epoch trace_id a r
  unfolding bind_row
  bind_row-IsRowOf a r e = row_of-IsRowOf a _ r refl e

  pub traverse-bind_row :
      (articles : List ParsedArticle) (rs : List Row)
      → traverse (bind_row j db now_iso now_epoch trace_id) articles ≡ some rs
      → Each (IsRowOf j now_iso now_epoch trace_id) articles rs
  traverse-bind_row articles rs e =
      traverse-Each _ (bind_row j db now_iso now_epoch trace_id) bind_row-IsRowOf articles rs e
