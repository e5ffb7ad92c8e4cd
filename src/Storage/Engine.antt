-- ===== src/Storage/Engine.antt =====
-- SQLite, which is not part of the repository: a connection and the statements that the store runs
-- on it are the fields of `Sqlite`, and what the documentation promises of them is `SqliteLaws`. A
-- result `false` or `none` is an error code, on which the store throws. `F` is the type `double`.
pub mod Memory
use habr_parser.Base.{ℕ, ◌≡◌, ◌⊎◌, List, map, Bool, true, false, ℤ, Option, none, some, length}
use habr_parser.Double.{Double}
use habr_parser.Config.{ScoreWeights}
use habr_parser.Storage.Table.{Row, score, upsert, select_top}

-- The table as it is committed, and as an open transaction has it.
pub record View : Type 0 where
  pub rows : List Row
  pub draft : Option (List Row)

pub record Sqlite (F : Type 0) : Type 1 where
  pub Conn : Type 0
  pub view : Conn → View
  pub exec_begin : Conn → Conn × Bool
  pub exec_commit : Conn → Conn × Bool
  pub exec_rollback : Conn → Conn × Bool
  pub prepare_upsert : Conn → Bool
  pub step_upsert : Row → Conn → Conn × Bool
  -- the rows of the digest query, with their scores
  pub query_top : ScoreWeights F → ℤ → ℕ → Conn → Option (List (Row × F))
  pub query_count : Conn → Option ℕ

-- What a reader on the same connection sees.
abbrev pub visible : View → List Row
visible v = elim v.draft [ none ↦ v.rows | some d ↦ d ]

-- A statement that fails leaves the transaction as it was, or has it rolled back.
abbrev pub Failed : View → View → Type 0
Failed v w = (w.rows ≡ v.rows) × ((w.draft ≡ v.draft) ⊎ (w.draft ≡ none))

pub record SqliteLaws {F : Type 0} (fl : Double F) (db : Sqlite F) : Type 1 where
  pub begin_ok :
      (c : db.Conn)
      → (db.exec_begin c).1 ≡ true
      → let v = db.view c in
        let w = db.view (db.exec_begin c).0 in
        (v.draft ≡ none) × (w.rows ≡ v.rows) × (w.draft ≡ some v.rows)
  pub begin_failed :
      (c : db.Conn) → (db.exec_begin c).1 ≡ false → db.view (db.exec_begin c).0 ≡ db.view c
  pub commit_ok :
      (c : db.Conn) (d : List Row)
      → (db.view c).draft ≡ some d
      → (db.exec_commit c).1 ≡ true
      → let w = db.view (db.exec_commit c).0 in (w.rows ≡ d) × (w.draft ≡ none)
  pub commit_failed :
      (c : db.Conn)
      → (db.exec_commit c).1 ≡ false
      → Failed (db.view c) (db.view (db.exec_commit c).0)
  pub rollback_any : (c : db.Conn) → Failed (db.view c) (db.view (db.exec_rollback c).0)
  pub step_ok :
      (r : Row) (c : db.Conn) (d : List Row)
      → (db.view c).draft ≡ some d
      → (db.step_upsert r c).1 ≡ true
      → let w = db.view (db.step_upsert r c).0 in
        (w.rows ≡ (db.view c).rows) × (w.draft ≡ some (upsert r d))
  pub step_failed :
      (r : Row) (c : db.Conn)
      → (db.step_upsert r c).1 ≡ false
      → Failed (db.view c) (db.view (db.step_upsert r c).0)
  pub top_ok :
      (w : ScoreWeights F) (cutoff : ℤ) (limit : ℕ) (c : db.Conn) {found : List (Row × F)}
      → db.query_top w cutoff limit c ≡ some found
      → found ≡ map (λ r. (r, score fl w r)) (select_top fl w cutoff limit (visible (db.view c)))
  pub count_ok :
      (c : db.Conn) {n : ℕ} → db.query_count c ≡ some n → n ≡ length (visible (db.view c))
