-- ===== src/Storage/Engine/Memory.antt =====
-- A database in memory as an instance of `Sqlite`, on which the tests run. No statement of it fails
-- but BEGIN in a transaction, and COMMIT and ROLLBACK outside one.
use habr_parser.Base.{
  ◌≡◌, refl, ap, List, Bool, true, false, inl, inr, Option, none, some, ℤ, map, length,
}
use mathlib.Core.Option.{some-injective}
use habr_parser.Double.Whole.{whole}
use habr_parser.Storage.Table.{Row, score, upsert, select_top}
use habr_parser.Storage.Engine.{View, Sqlite, SqliteLaws, visible, Failed}

abbrev mk : List Row → Option (List Row) → View
mk rows draft = record { rows = rows; draft = draft }

abbrev begin_on : List Row → Option (List Row) → View × Bool
begin_on rows none = (mk rows (some rows), true)
begin_on rows (some d) = (mk rows (some d), false)

abbrev commit_on : List Row → Option (List Row) → View × Bool
commit_on rows none = (mk rows none, false)
commit_on rows (some d) = (mk d none, true)

abbrev rollback_on : List Row → Option (List Row) → View × Bool
rollback_on rows none = (mk rows none, false)
rollback_on rows (some d) = (mk rows none, true)

abbrev step_on : Row → List Row → Option (List Row) → View × Bool
step_on r rows none = (mk (upsert r rows) none, true)
step_on r rows (some d) = (mk rows (some (upsert r d)), true)

abbrev pub memory : Sqlite ℤ
memory = record {
  Conn = View;
  view = λ c. c;
  exec_begin = λ c. begin_on c.rows c.draft;
  exec_commit = λ c. commit_on c.rows c.draft;
  exec_rollback = λ c. rollback_on c.rows c.draft;
  prepare_upsert = λ _. true;
  step_upsert = λ r c. step_on r c.rows c.draft;
  query_top = λ w cutoff limit c.
      some (map (λ r. (r, score whole w r)) (select_top whole w cutoff limit (visible c)));
  query_count = λ c. some (length (visible c));
}

begin_on_ok :
    (rows : List Row) (o : Option (List Row))
    → (begin_on rows o).1 ≡ true
    → let w = (begin_on rows o).0 in (o ≡ none) × (w.rows ≡ rows) × (w.draft ≡ some rows)
begin_on_ok rows none e = (refl, refl, refl)
begin_on_ok rows (some d) e = cc

begin_on_refused :
    (rows : List Row) (o : Option (List Row))
    → (begin_on rows o).1 ≡ false
    → (begin_on rows o).0 ≡ mk rows o
begin_on_refused rows none e = cc
begin_on_refused rows (some d) e = refl

commit_on_ok :
    (rows d : List Row) (o : Option (List Row))
    → o ≡ some d
    → (commit_on rows o).1 ≡ true
    → let w = (commit_on rows o).0 in (w.rows ≡ d) × (w.draft ≡ none)
commit_on_ok rows d none e h = cc
commit_on_ok rows d (some d') e h = (some-injective _ _ e, refl)

commit_on-Failed :
    (rows : List Row) (o : Option (List Row))
    → (commit_on rows o).1 ≡ false
    → Failed (mk rows o) (commit_on rows o).0
commit_on-Failed rows none e = (refl, inl refl)
commit_on-Failed rows (some d) e = cc

rollback_on_any :
    (rows : List Row) (o : Option (List Row)) → Failed (mk rows o) (rollback_on rows o).0
rollback_on_any rows none = (refl, inl refl)
rollback_on_any rows (some d) = (refl, inr refl)

step_on_ok :
    (r : Row) (rows d : List Row) (o : Option (List Row))
    → o ≡ some d
    → let w = (step_on r rows o).0 in (w.rows ≡ rows) × (w.draft ≡ some (upsert r d))
step_on_ok r rows d none e = cc
step_on_ok r rows d (some d') e = (refl, ap (λ t. some (upsert r t)) (some-injective _ _ e))

step_on-Failed :
    (r : Row) (rows : List Row) (o : Option (List Row))
    → (step_on r rows o).1 ≡ false
    → Failed (mk rows o) (step_on r rows o).0
step_on-Failed r rows none e = cc
step_on-Failed r rows (some d) e = cc

pub memory-SqliteLaws : SqliteLaws whole memory
memory-SqliteLaws = record {
  begin_ok = λ c e. begin_on_ok c.rows c.draft e;
  begin_failed = λ c e. begin_on_refused c.rows c.draft e;
  commit_ok = λ c d e h. commit_on_ok c.rows d c.draft e h;
  commit_failed = λ c e. commit_on-Failed c.rows c.draft e;
  rollback_any = λ c. rollback_on_any c.rows c.draft;
  step_ok = λ r c d e _. step_on_ok r c.rows d c.draft e;
  step_failed = λ r c e. step_on-Failed r c.rows c.draft e;
  top_ok = λ w cutoff limit c {found} e. cc;
  count_ok = λ c {n} e. cc;
}
