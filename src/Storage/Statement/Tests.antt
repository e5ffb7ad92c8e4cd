-- ===== src/Storage/Statement/Tests.antt =====
-- The statements on a database in memory and a list of result rows.
use habr_parser.Base.{ℕ, ◌≡◌, refl, List, [], ◌∷◌, ℤ, pos, Option, none, some, utf8, if◌then◌else◌}
use habr_parser.Samples.{row}
use habr_parser.Storage.Table.{Row}
use habr_parser.Storage.Engine.{View}
use habr_parser.Storage.Engine.Memory.{memory}
use habr_parser.Storage.Statement.{Value, null, Code, Api}
use habr_parser.Storage.Statement.Reading.{select_columns}
use habr_parser.Storage.Statement.Batch.{UpsertLaws, set_param, listed, insert_row}

-- A statement that inserts where all its parameters are bound, and else gives the rows to come.
record Cursor : Type 0 where
  table : View
  bound : ℕ → Value ℤ
  current : List (Value ℤ)
  next : List (List (Value ℤ))

abbrev step_result : Cursor → List (List (Value ℤ)) → Cursor × Code
step_result st [] = (st, Code.done)
step_result st (r ∷ rs) = (record st { current = r; next = rs }, Code.row)

abbrev step_cursor : Cursor → Option Row → Cursor × Code
step_cursor st none = step_result st st.next
step_cursor st (some r) =
    let after = memory.step_upsert r st.table in
    (record st { table = after.0 }, if after.1 then Code.done else Code.error)

abbrev cursors : Api ℤ
cursors = record {
  Db = View;
  Stmt = Cursor;
  prepare = λ sql db. none;
  bind = λ n v st. record st { bound = set_param n v st.bound };
  step = λ st. step_cursor st (insert_row (listed st.bound));
  reset = λ st. record st { bound = λ _. null };
  columns = λ st. st.current;
}

step_cursor-row :
    (st : Cursor) (r : Row)
    → insert_row (listed st.bound) ≡ some r
    → let after = memory.step_upsert r st.table in
      let p = step_cursor st (insert_row (listed st.bound)) in
      (p.0.table ≡ after.0) × (p.1 ≡ (if after.1 then Code.done else Code.error))
step_cursor-row st r e = rw e (refl, refl)

abbrev cursors-UpsertLaws : UpsertLaws memory cursors
cursors-UpsertLaws = record {
  conn = λ st. st.table;
  params = λ st. st.bound;
  conn-bind = λ n v st. refl;
  params-bind = λ n v st. refl;
  conn-reset = λ st. refl;
  step_row = step_cursor-row;
}

abbrev two_scored : List (Row × ℤ)
two_scored = (row (utf8 "1") 7, pos 3) ∷ (row (utf8 "2") 8, pos 2) ∷ []

abbrev prepared : Cursor
prepared = record {
  table = record { rows = []; draft = some [] };
  bound = λ _. null;
  current = [];
  next = select_columns (row (utf8 "1") 7, pos 3) ∷ select_columns (row (utf8 "2") 8, pos 2) ∷ [];
}
