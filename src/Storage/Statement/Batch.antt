-- ===== src/Storage/Statement/Batch.antt =====
-- The loop of `UpsertBatch` over a statement does to the database what that of the store does.
use habr_parser.Base.{
  ℕ, suc, ◌≡◌, refl, sym, ap, ◌∙◌, List, [], ◌∷◌, Bool, true, false, ℤ, Option, none, some, Bytes,
  if◌then◌else◌, ◌==◌,
}
use habr_parser.Json.{Json}
use habr_parser.Codec.{strings_to_json}
use habr_parser.Messages.{ParsedArticle}
use habr_parser.Storage.Table.{Row}
use habr_parser.Storage.Engine.{Sqlite}
use habr_parser.Storage.Store.{row_of, bind_row, loop_row, loop_step, upsert_loop}
use habr_parser.Storage.Statement.{
  Value, text, int, Code, Api, step_statement, stepped, bind_values, bind_all, reset_after,
  upsert_round, upsert_rounds,
}

-- The row that kUpsertSql inserts, by the order of its column list.
abbrev pub insert_row : {F : Type 0} → List (Value F) → Option Row
insert_row
      (text article_id
        ∷ text url
        ∷ text title
        ∷ text author
        ∷ text hubs
        ∷ text published_at
        ∷ text complexity
        ∷ text reading_time
        ∷ int votes
        ∷ int views
        ∷ int bookmarks
        ∷ int comments
        ∷ text first_seen_at
        ∷ int first_seen_epoch
        ∷ text updated_at
        ∷ int updated_epoch
        ∷ text trace_id
        ∷ []) =
    some (record {
      article_id = article_id;
      url = url;
      title = title;
      author = author;
      hubs = hubs;
      published_at = published_at;
      complexity = complexity;
      reading_time = reading_time;
      votes = votes;
      views = views;
      bookmarks = bookmarks;
      comments = comments;
      first_seen_at = first_seen_at;
      first_seen_epoch = first_seen_epoch;
      updated_at = updated_at;
      updated_epoch = updated_epoch;
      trace_id = trace_id;
    })
insert_row _ = none

abbrev pub set_param : {F : Type 0} → ℕ → Value F → (ℕ → Value F) → ℕ → Value F
set_param n v f k = if k == n then v else f k

-- The parameters 1 to 17.
abbrev pub listed : {F : Type 0} → (ℕ → Value F) → List (Value F)
listed f =
    f 1
    ∷ f 2
    ∷ f 3
    ∷ f 4
    ∷ f 5
    ∷ f 6
    ∷ f 7
    ∷ f 8
    ∷ f 9
    ∷ f 10
    ∷ f 11
    ∷ f 12
    ∷ f 13
    ∷ f 14
    ∷ f 15
    ∷ f 16
    ∷ f 17
    ∷ []

-- What a statement of kUpsertSql is to the connection that it was prepared on: a step inserts the
-- row of its parameters, as SQLite documents it.
pub record UpsertLaws {F : Type 0} (db : Sqlite F) (api : Api F) : Type 0 where
  pub conn : api.Stmt → db.Conn
  pub params : api.Stmt → ℕ → Value F
  pub conn-bind : (n : ℕ) (v : Value F) (st : api.Stmt) → conn (api.bind n v st) ≡ conn st
  pub params-bind :
      (n : ℕ) (v : Value F) (st : api.Stmt) → params (api.bind n v st) ≡ set_param n v (params st)
  pub conn-reset : (st : api.Stmt) → conn (api.reset st) ≡ conn st
  pub step_row :
      (st : api.Stmt) (r : Row)
      → insert_row (listed (params st)) ≡ some r
      → let after = db.step_upsert r (conn st) in
        (conn (api.step st).0 ≡ after.0)
        × ((api.step st).1 ≡ (if after.1 then Code.done else Code.error))

abbrev set_all : {F : Type 0} → ℕ → List (Value F) → (ℕ → Value F) → ℕ → Value F
set_all n [] f = f
set_all n (v ∷ vs) f = set_all (suc n) vs (set_param n v f)

insert_row-set_all :
    {F : Type 0} (j : Json F) (db : Sqlite F) (now_iso : Bytes) (now_epoch : ℤ) (trace_id : Bytes)
    (a : ParsedArticle) (hubs : Bytes) (f : ℕ → Value F)
    → insert_row (listed (set_all 1 (bind_values now_iso now_epoch trace_id a hubs) f))
      ≡ row_of j db now_iso now_epoch trace_id a (some hubs)
unfolding bind_values
insert_row-set_all j db now_iso now_epoch trace_id a hubs f = refl

module _ {F : Type 0} (j : Json F) (db : Sqlite F) (api : Api F) (laws : UpsertLaws db api) where
  conn-bind_all :
      (n : ℕ) (vs : List (Value F)) (st : api.Stmt)
      → laws.conn (bind_all api n vs st) ≡ laws.conn st
  unfolding bind_all
  conn-bind_all n [] st = refl
  conn-bind_all n (v ∷ vs) st = conn-bind_all (suc n) vs (api.bind n v st) ∙ laws.conn-bind n v st

  params-bind_all :
      (n : ℕ) (vs : List (Value F)) (st : api.Stmt)
      → laws.params (bind_all api n vs st) ≡ set_all n vs (laws.params st)
  unfolding bind_all
  params-bind_all n [] st = refl
  params-bind_all n (v ∷ vs) st =
      params-bind_all (suc n) vs (api.bind n v st)
      ∙ ap (set_all (suc n) vs) (laws.params-bind n v st)

  -- The statement stands on that connection, and both or none threw.
  abbrev pub Agree : api.Stmt × Bool → db.Conn × Bool → Type 0
  Agree p q = (laws.conn p.0 ≡ q.0) × (p.1 ≡ q.1)

  module _ (rest : api.Stmt → api.Stmt × Bool) (rest_on : db.Conn → db.Conn × Bool)
      (ih : (st : api.Stmt) → Agree (rest st) (rest_on (laws.conn st))) (now_iso : Bytes)
      (now_epoch : ℤ) (trace_id : Bytes) where
    reset_after-Agree :
        (st : api.Stmt) (c : Code) (q : db.Conn × Bool)
        → laws.conn st ≡ q.0
        → c ≡ (if q.1 then Code.done else Code.error)
        → Agree
            (reset_after api j now_iso now_epoch trace_id rest (stepped api (st, c)))
            (loop_step j db now_iso now_epoch trace_id rest_on q)
    reset_after-Agree st c (d, true) on e =
        rw (e, sym on, sym (laws.conn-reset st)) (ih (api.reset st))
    reset_after-Agree st c (d, false) on e = rw e (on, refl)

    step_statement-Agree :
        (st : api.Stmt) (d : db.Conn) (r : Row)
        → laws.conn st ≡ d
        → insert_row (listed (laws.params st)) ≡ some r
        → Agree
            (reset_after api j now_iso now_epoch trace_id rest (step_statement api st))
            (loop_step j db now_iso now_epoch trace_id rest_on (db.step_upsert r d))
    unfolding step_statement
    step_statement-Agree st d r on bound =
        let (conn_after, code) = laws.step_row st r bound in
        rw (sym on) (
          reset_after-Agree (api.step st).0 (api.step st).1 (db.step_upsert r (laws.conn st))
            conn_after code)

    upsert_round-Agree :
        (a : ParsedArticle) (dumped : Option Bytes) (st : api.Stmt)
        → Agree (upsert_round api j now_iso now_epoch trace_id rest a dumped st) (
            loop_row j db now_iso now_epoch trace_id rest_on
              (row_of j db now_iso now_epoch trace_id a dumped)
              (laws.conn st))
    upsert_round-Agree a none st = (conn-bind_all 1 _ st, refl)
    upsert_round-Agree a (some hubs) st =
        step_statement-Agree _ (laws.conn st) _ (conn-bind_all 1 _ st) (
          ap (λ f. insert_row (listed f)) (params-bind_all 1 _ st)
          ∙ insert_row-set_all j db now_iso now_epoch trace_id a hubs (laws.params st))

  pub upsert_rounds-Agree :
      (now_iso : Bytes) (now_epoch : ℤ) (trace_id : Bytes) (articles : List ParsedArticle)
      (st : api.Stmt)
      → Agree
          (upsert_rounds api j now_iso now_epoch trace_id articles st)
          (upsert_loop j db now_iso now_epoch trace_id articles (laws.conn st))
  unfolding upsert_rounds upsert_loop bind_row
  upsert_rounds-Agree now_iso now_epoch trace_id [] st = (refl, refl)
  upsert_rounds-Agree now_iso now_epoch trace_id (a ∷ articles) st =
      upsert_round-Agree (upsert_rounds api j now_iso now_epoch trace_id articles)
        (upsert_loop j db now_iso now_epoch trace_id articles)
        (upsert_rounds-Agree now_iso now_epoch trace_id articles) now_iso now_epoch trace_id a
        (j.dump (strings_to_json j a.hubs)) st
