-- ===== src/Storage/Statement/Reading.antt =====
-- The loops end, the numbers of columns and parameters are those of the SQL, and the reading of a
-- query is that of the store.
use habr_parser.Base.{
  suc, ◌≡◌, refl, sym, ap, ◌∙◌, List, [], ◌∷◌, ◌++◌, append_assoc, append-nil, map, Bool, true,
  false, Option, none, some, length,
}
use habr_parser.Json.{Json}
use habr_parser.Messages.{DigestArticle}
use habr_parser.Storage.Table.{Row}
use habr_parser.Storage.Engine.{Sqlite}
use habr_parser.Storage.Store.{digest_article, articles_of}
use habr_parser.Storage.Statement.{
  Value, text, int, real, Code, Api, read_row, step_statement, fetch,
}

-- The columns that kTopSql selects, in its order.
abbrev pub select_columns : {F : Type 0} → Row × F → List (Value F)
select_columns (r, score) =
    text r.article_id
    ∷ text r.url
    ∷ text r.title
    ∷ text r.author
    ∷ text r.hubs
    ∷ text r.published_at
    ∷ int r.votes
    ∷ int r.views
    ∷ int r.bookmarks
    ∷ int r.comments
    ∷ text r.trace_id
    ∷ real score
    ∷ []

-- The steps of a statement from a state on: rows, and then the end or an error.
pub data Yields {F : Type 0} (api : Api F) : api.Stmt → List (Row × F) → Bool → Type 0 where
  ends : {st st' : api.Stmt} → api.step st ≡ (st', Code.done) → Yields api st [] true
  fails : {st st' : api.Stmt} → api.step st ≡ (st', Code.error) → Yields api st [] false
  gives :
      {st st' : api.Stmt} {r : Row × F} {rs : List (Row × F)} {ok : Bool}
      → api.step st ≡ (st', Code.row)
      → api.columns st' ≡ select_columns r
      → Yields api st' rs ok
      → Yields api st (r ∷ rs) ok

abbrev pub whole_if : {A : Type 0} → Bool → List A → Option (List A)
whole_if true xs = some xs
whole_if false xs = none

module _ {F : Type 0} (zero_real : F) (j : Json F) (db : Sqlite F) (api : Api F) where
  read_row-select_columns :
      (r : Row × F) → read_row zero_real j db (select_columns r) ≡ digest_article j db r
  unfolding read_row digest_article
  read_row-select_columns (r, score) = refl

  fetch-Yields :
      {st : api.Stmt} {rs : List (Row × F)} {ok : Bool} (found : List (DigestArticle F))
      → Yields api st rs ok
      → fetch api (read_row zero_real j db) (suc (length rs)) st found
        ≡ some (whole_if ok (found ++ map (digest_article j db) rs))
  unfolding fetch step_statement
  fetch-Yields found (ends e) = rw e (ap (λ xs. some (some xs)) (sym (append-nil found)))
  fetch-Yields found (fails e) = rw e refl
  fetch-Yields {ok} found (gives {r} {rs} e cols y) =
      rw (e, cols, read_row-select_columns r)
        (fetch-Yields (found ++ digest_article j db r ∷ []) y
          ∙ ap (λ xs. some (whole_if ok xs))
              (append_assoc found (digest_article j db r ∷ []) (map (digest_article j db) rs)))

  articles_of-whole_if :
      (ok : Bool) (rs : List (Row × F))
      → whole_if ok (map (digest_article j db) rs) ≡ articles_of j db (whole_if ok rs)
  articles_of-whole_if true rs = refl
  articles_of-whole_if false rs = refl

  pub fetch_lem :
      {st : api.Stmt} {rs : List (Row × F)} {ok : Bool}
      → Yields api st rs ok
      → fetch api (read_row zero_real j db) (suc (length rs)) st []
        ≡ some (articles_of j db (whole_if ok rs))
  fetch_lem {rs} {ok} y = fetch-Yields [] y ∙ ap some (articles_of-whole_if ok rs)
