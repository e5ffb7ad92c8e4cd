-- ===== src/Storage/Statement.antt =====
-- `Statement` of services/storage/src/article_store.cpp, the reading loops over them, and
-- the numbered parameters and columns of the SQL. The C interface of SQLite is a parameter.
pub mod Reading
pub mod Batch
mod Tests
use habr_parser.Base.{
  ℕ, zero, suc, List, [], ◌∷◌, ◌++◌, Bool, true, false, ℤ, pos, Option, none, some, Bytes, drop,
  utf8, if◌then◌else◌,
}
use habr_parser.Json.{Json}
use habr_parser.Messages.{ParsedArticle, DigestArticle}
use habr_parser.Config.{ScoreWeights}
use habr_parser.Storage.Table.{Row}
use habr_parser.Storage.Engine.{Sqlite}
use habr_parser.Codec.{strings_to_json}
use habr_parser.Storage.Store.{c_str, decode_hubs}

-- What is bound to a parameter, or stands in a column.
pub data Value (F : Type 0) : Type 0 where
  text : Bytes → Value F
  int : ℤ → Value F
  real : F → Value F
  null : Value F

-- What `sqlite3_step` returns: SQLITE_ROW, SQLITE_DONE or an error.
pub data Code : Type 0 where
  row done error : Code

pub record Api (F : Type 0) : Type 1 where
  pub Db : Type 0
  pub Stmt : Type 0
  -- `sqlite3_prepare_v2`; `none` where it is not SQLITE_OK
  pub prepare : Bytes → Db → Option Stmt
  pub bind : ℕ → Value F → Stmt → Stmt
  pub step : Stmt → Stmt × Code
  -- `sqlite3_reset` and `sqlite3_clear_bindings`
  pub reset : Stmt → Stmt
  -- the columns of the row on which the statement stands, a text as the C string of
  -- `sqlite3_column_text`
  pub columns : Stmt → List (Value F)

module _ {F : Type 0} (fl_zero : F) where
  abbrev head_value : List (Value F) → Value F
  head_value [] = null
  head_value (v ∷ vs) = v

  abbrev as_text : Value F → Bytes
  as_text (text s) = s
  as_text _ = []

  abbrev as_int : Value F → ℤ
  as_int (int n) = n
  as_int _ = pos 0

  abbrev as_real : Value F → F
  as_real (real x) = x
  as_real _ = fl_zero

  -- `ColumnText`, `ColumnInt64` and `ColumnDouble`; the queries leave no column of another type.
  abbrev pub column_text : List (Value F) → ℕ → Bytes
  column_text columns index = as_text (head_value (drop index columns))

  abbrev pub column_int64 : List (Value F) → ℕ → ℤ
  column_int64 columns index = as_int (head_value (drop index columns))

  abbrev pub column_double : List (Value F) → ℕ → F
  column_double columns index = as_real (head_value (drop index columns))

  module _ (j : Json F) (db : Sqlite F) where
    -- The body of the loop of `TopArticles`.
    pub read_row : List (Value F) → DigestArticle F
    read_row columns = record {
      article_id = column_text columns 0;
      url = column_text columns 1;
      title = column_text columns 2;
      author = column_text columns 3;
      hubs = decode_hubs j db (column_text columns 4);
      published_at = column_text columns 5;
      votes = column_int64 columns 6;
      views = column_int64 columns 7;
      bookmarks = column_int64 columns 8;
      comments = column_int64 columns 9;
      source_trace_id = column_text columns 10;
      score = column_double columns 11;
    }

module _ {F : Type 0} (api : Api F) where
  abbrev pub stepped : api.Stmt × Code → api.Stmt × Option Bool
  stepped (st, Code.row) = (st, some true)
  stepped (st, Code.done) = (st, some false)
  stepped (st, Code.error) = (st, none)

  -- `Statement::Step`; `none` where it throws.
  pub step_statement : api.Stmt → api.Stmt × Option Bool
  step_statement st = stepped (api.step st)

  module _ {A : Type 0} (read : List (Value F) → A) where
    abbrev pub next_round :
        (api.Stmt → List A → Option (Option (List A)))
        → api.Stmt × Option Bool
        → List A
        → Option (Option (List A))
    next_round rest (st, none) found = some none
    next_round rest (st, some false) found = some (some found)
    next_round rest (st, some true) found = rest st (found ++ read (api.columns st) ∷ [])

    -- `while (statement.Step()) push_back(…)`, with fuel for the rounds: `none` if it runs out,
    -- `some none` where a step throws.
    pub fetch : ℕ → api.Stmt → List A → Option (Option (List A))
    fetch zero st found = none
    fetch (suc fuel) st found = next_round (fetch fuel) (step_statement st) found

  -- The six parameters of kTopSql.
  abbrev pub bind_top : ScoreWeights F → ℤ → ℕ → api.Stmt → api.Stmt
  bind_top weights cutoff limit st = api.bind 6 (int (pos limit)) (
      api.bind 5 (int cutoff) (
        api.bind 4 (real weights.views) (
          api.bind 3 (real weights.comments)
            (api.bind 2 (real weights.bookmarks) (api.bind 1 (real weights.votes) st)))))

  abbrev pub counted : F → api.Stmt × Option Bool → Option ℤ
  counted z (st, none) = none
  counted z (st, some false) = some (pos 0)
  counted z (st, some true) = some (column_int64 z (api.columns st) 0)

  abbrev pub count_prepared : F → Option api.Stmt → Option ℤ
  count_prepared z none = none
  count_prepared z (some st) = counted z (step_statement st)

  -- `CountArticles`; `none` where it throws.
  abbrev pub count_articles : F → api.Db → Option ℤ
  count_articles z db = count_prepared z (api.prepare (utf8 "SELECT COUNT(*) FROM articles") db)

-- The values that `UpsertBatch` binds to the parameters 1 to 17 for one article.
pub bind_values : {F : Type 0} → Bytes → ℤ → Bytes → ParsedArticle → Bytes → List (Value F)
bind_values now_iso now_epoch trace_id a hubs =
    text (c_str a.article_id)
    ∷ text (c_str a.url)
    ∷ text (c_str a.title)
    ∷ text (c_str a.author)
    ∷ text (c_str hubs)
    ∷ text (c_str a.published_at)
    ∷ text (c_str a.complexity)
    ∷ text (c_str a.reading_time)
    ∷ int a.votes
    ∷ int a.views
    ∷ int a.bookmarks
    ∷ int a.comments
    ∷ text (c_str now_iso)
    ∷ int now_epoch
    ∷ text (c_str now_iso)
    ∷ int now_epoch
    ∷ text (c_str trace_id)
    ∷ []

module _ {F : Type 0} (api : Api F) where
  -- The values in order, from a parameter number on.
  unfoldable pub bind_all : ℕ → List (Value F) → api.Stmt → api.Stmt
  bind_all index [] st = st
  bind_all index (v ∷ vs) st = bind_all (suc index) vs (api.bind index v st)

  module _ (j : Json F) (now_iso : Bytes) (now_epoch : ℤ) (trace_id : Bytes) where
    -- The reset and the next round, unless the step threw.
    abbrev pub reset_after : (api.Stmt → api.Stmt × Bool) → api.Stmt × Option Bool → api.Stmt × Bool
    reset_after rest (st, none) = (st, false)
    reset_after rest (st, some _) = rest (api.reset st)

    -- One round, by the dump of the hubs, which throws behind the parameters before it.
    abbrev pub upsert_round :
        (api.Stmt → api.Stmt × Bool) → ParsedArticle → Option Bytes → api.Stmt → api.Stmt × Bool
    upsert_round rest a none st = (
      bind_all 1
          (text (c_str a.article_id)
            ∷ text (c_str a.url)
            ∷ text (c_str a.title)
            ∷ text (c_str a.author)
            ∷ [])
          st,
      false,
    )
    upsert_round rest a (some hubs) st =
        reset_after rest
          (step_statement api (bind_all 1 (bind_values now_iso now_epoch trace_id a hubs) st))

    -- The loop of `UpsertBatch`: the statement, and whether nothing was thrown.
    unfoldable pub upsert_rounds : List ParsedArticle → api.Stmt → api.Stmt × Bool
    upsert_rounds [] st = (st, true)
    upsert_rounds (a ∷ articles) st =
        upsert_round (upsert_rounds articles) a (j.dump (strings_to_json j a.hubs)) st
