-- ===== src/Storage/Store/Atomic.antt =====
-- A batch is stored whole or not at all.
use habr_parser.Base.{
  ℕ, ◌≡◌, ◌≢◌, refl, ◌∙◌, List, [], ◌∷◌, Bool, true, false, ◌⊎◌, inl, inr, ℤ, Option, none, some,
  Bytes, length, is_empty, if_split, is_empty→nil, ap,
}
use habr_parser.Double.{Double}
use habr_parser.Json.{Json}
use habr_parser.Codec.{traverse}
use habr_parser.Messages.{ParsedArticle}
use habr_parser.Storage.Table.{Row, upsert, upsert_all}
use habr_parser.Storage.Engine.{View, Sqlite, SqliteLaws, Failed}
use habr_parser.Storage.Store.{
  bind_row, upsert_loop, loop_step, loop_row, end_batch, run_batch, committed, upsert_batch,
}

module _ {F : Type 0} (j : Json F) (db : Sqlite F) (now_iso : Bytes) (now_epoch : ℤ)
    (trace_id : Bytes) where
  -- The batch was stored: its rows are upserted into the table in order, and nothing is open.
  abbrev pub Stored : List ParsedArticle → View → View → Type 0
  Stored articles v w =
      (rs : List Row) × (traverse (bind_row j db now_iso now_epoch trace_id) articles ≡ some rs)
      × (w.rows ≡ upsert_all rs v.rows)
      × (w.draft ≡ none)

module _ {F : Type 0} (fl : Double F) (j : Json F) (db : Sqlite F) (laws : SqliteLaws fl db)
    (now_iso : Bytes) (now_epoch : ℤ) (trace_id : Bytes) where
  abbrev bind : ParsedArticle → Option Row
  bind = bind_row j db now_iso now_epoch trace_id

  -- What the loop does to the table.
  abbrev Loop : List ParsedArticle → List Row → View → View → Bool → Type 0
  Loop articles d v w true =
      (rs : List Row) × (traverse bind articles ≡ some rs)
      × (w.rows ≡ v.rows)
      × (w.draft ≡ some (upsert_all rs d))
  Loop articles d v w false = w.rows ≡ v.rows

  Loop-cons :
      (a : ParsedArticle) (articles : List ParsedArticle) (row : Row) (d : List Row) (u v w : View)
      (b : Bool)
      → bind a ≡ some row
      → v.rows ≡ u.rows
      → Loop articles (upsert row d) v w b
      → Loop (a ∷ articles) d u w b
  Loop-cons a articles row d u v w true bound same (rs, e, er, ed) =
      (row ∷ rs, rw (bound, e), er ∙ same, ed)
  Loop-cons a articles row d u v w false bound same h = h ∙ same

  loop_step-Loop :
      (a : ParsedArticle) (articles : List ParsedArticle) (row : Row) (d : List Row) (u : View)
      (rest : db.Conn → db.Conn × Bool) (o : db.Conn × Bool)
      → bind a ≡ some row
      → (o.1 ≡ true → ((db.view o.0).rows ≡ u.rows) × ((db.view o.0).draft ≡ some (upsert row d)))
      → (o.1 ≡ false → Failed u (db.view o.0))
      → ((db.view o.0).draft ≡ some (upsert row d)
          → Loop articles (upsert row d) (db.view o.0) (db.view (rest o.0).0) (rest o.0).1)
      → let r = loop_step j db now_iso now_epoch trace_id rest o in
        Loop (a ∷ articles) d u (db.view r.0) r.1
  loop_step-Loop a articles row d u rest (c, true) bound ok failed ih =
      let (same, draft) = ok refl in
      Loop-cons a articles row d u (db.view c) _ _ bound same (ih draft)
  loop_step-Loop a articles row d u rest (c, false) bound ok failed ih = (failed refl).0

  loop_row-Loop :
      (a : ParsedArticle) (articles : List ParsedArticle) (d : List Row) (c : db.Conn)
      (rest : db.Conn → db.Conn × Bool) (o : Option Row)
      → bind a ≡ o
      → (db.view c).draft ≡ some d
      → ((row : Row) (c' : db.Conn)
          → (db.view c').draft ≡ some (upsert row d)
          → Loop articles (upsert row d) (db.view c') (db.view (rest c').0) (rest c').1)
      → let r = loop_row j db now_iso now_epoch trace_id rest o c in
        Loop (a ∷ articles) d (db.view c) (db.view r.0) r.1
  loop_row-Loop a articles d c rest none bound e ih = refl
  loop_row-Loop a articles d c rest (some row) bound e ih =
      loop_step-Loop a articles row d (db.view c) rest (db.step_upsert row c) bound
        (laws.step_ok row c d e) (laws.step_failed row c) (ih row (db.step_upsert row c).0)

  upsert_loop-Loop :
      (articles : List ParsedArticle) (d : List Row) (c : db.Conn)
      → (db.view c).draft ≡ some d
      → let r = upsert_loop j db now_iso now_epoch trace_id articles c in
        Loop articles d (db.view c) (db.view r.0) r.1
  unfolding upsert_loop
  upsert_loop-Loop [] d c e = ([], refl, refl, e)
  upsert_loop-Loop (a ∷ articles) d c e =
      loop_row-Loop a articles d c (upsert_loop j db now_iso now_epoch trace_id articles) (bind a)
        refl e (λ row c'. upsert_loop-Loop articles (upsert row d) c')

  abbrev Atomic : List ParsedArticle → View → View → Option ℕ → Type 0
  Atomic articles v w none = w.rows ≡ v.rows
  Atomic articles v w (some n) =
      (n ≡ length articles) × Stored j db now_iso now_epoch trace_id articles v w

  committed-Atomic :
      (articles : List ParsedArticle) (v : View) (rs : List Row) (c : db.Conn)
      → traverse bind articles ≡ some rs
      → (db.view c).rows ≡ v.rows
      → (db.view c).draft ≡ some (upsert_all rs v.rows)
      → let r = committed j db now_iso now_epoch trace_id (length articles) (db.exec_commit c) in
        Atomic articles v (db.view r.0) r.1
  committed-Atomic articles v rs c bound same draft =
      go (db.exec_commit c) (laws.commit_ok c _ draft) (laws.commit_failed c)
    where
      go :
          (o : db.Conn × Bool)
          → (o.1 ≡ true
              → ((db.view o.0).rows ≡ upsert_all rs v.rows) × ((db.view o.0).draft ≡ none))
          → (o.1 ≡ false → Failed (db.view c) (db.view o.0))
          → let r = committed j db now_iso now_epoch trace_id (length articles) o in
            Atomic articles v (db.view r.0) r.1
      go (c', true) ok failed = let (rows, closed) = ok refl in (refl, (rs, bound, rows, closed))
      go (c', false) ok failed = (failed refl).0 ∙ same

  end_batch-Atomic :
      (articles : List ParsedArticle) (v w : View) (o : db.Conn × Bool)
      → w.rows ≡ v.rows
      → Loop articles v.rows w (db.view o.0) o.1
      → let r = end_batch j db now_iso now_epoch trace_id (length articles) o in
        Atomic articles v (db.view r.0) r.1
  end_batch-Atomic articles v w (c, true) same (rs, bound, rows, draft) =
      committed-Atomic articles v rs c bound (rows ∙ same) draft
  end_batch-Atomic articles v w (c, false) same h = (laws.rollback_any c).0 ∙ h ∙ same

  run_batch-Atomic :
      (articles : List ParsedArticle) (v : View) (o : db.Conn × Bool)
      → (o.1 ≡ true → ((db.view o.0).rows ≡ v.rows) × ((db.view o.0).draft ≡ some v.rows))
      → (o.1 ≡ false → (db.view o.0).rows ≡ v.rows)
      → let r = run_batch j db now_iso now_epoch trace_id articles o in
        Atomic articles v (db.view r.0) r.1
  run_batch-Atomic articles v (c, false) ok failed = failed refl
  run_batch-Atomic articles v (c, true) ok failed =
      let (same, draft) = ok refl in
      end_batch-Atomic articles v (db.view c) _ same (
        if_split (λ (o : db.Conn × Bool). Loop articles v.rows (db.view c) (db.view o.0) o.1)
          (db.prepare_upsert c) (λ _. upsert_loop-Loop articles v.rows c draft) (λ _. refl))

  Atomic-cases :
      (articles : List ParsedArticle) (v w : View) (o : Option ℕ)
      → Atomic articles v w o
      → ((o ≡ none) × (w.rows ≡ v.rows))
        ⊎ ((o ≡ some (length articles)) × Stored j db now_iso now_epoch trace_id articles v w)
  Atomic-cases articles v w none h = inl (refl, h)
  Atomic-cases articles v w (some n) (e, h) = inr (ap some e, h)

  -- On a database that meets the laws, a batch that is not empty is stored whole, every article of it in order, and its size is
  -- returned; or an exception is thrown, and the committed rows are what they were.
  pub upsert_batch-Atomic :
      (articles : List ParsedArticle) (c : db.Conn)
      → articles ≢ []
      → let r = upsert_batch j db now_iso now_epoch trace_id articles c in
        ((r.1 ≡ none) × ((db.view r.0).rows ≡ (db.view c).rows))
        ⊎ ((r.1 ≡ some (length articles))
            × Stored j db now_iso now_epoch trace_id articles (db.view c) (db.view r.0))
  unfolding upsert_batch
  upsert_batch-Atomic articles c ne =
      if_split
        (λ (r : db.Conn × Option ℕ).
          ((r.1 ≡ none) × ((db.view r.0).rows ≡ (db.view c).rows))
          ⊎ ((r.1 ≡ some (length articles))
              × Stored j db now_iso now_epoch trace_id articles (db.view c) (db.view r.0)))
        (is_empty articles) (λ e. absurd (ne (is_empty→nil e)))
        (λ _. Atomic-cases articles (db.view c) _ _ (
          run_batch-Atomic articles (db.view c) (db.exec_begin c)
            (λ e. ((laws.begin_ok c e).1, (laws.begin_ok c e).2))
            (λ e. ap (λ (w : View). w.rows) (laws.begin_failed c e))))

  pub upsert_batch_nil :
      (articles : List ParsedArticle) (c : db.Conn)
      → articles ≡ []
      → upsert_batch j db now_iso now_epoch trace_id articles c ≡ (c, some 0)
  unfolding upsert_batch
  upsert_batch_nil [] c e = refl
  upsert_batch_nil (a ∷ articles) c e = cc

  -- While a transaction is left open, as by a COMMIT that failed, every batch that is not empty
  -- throws and changes nothing, the open transaction included.
  pub upsert_batch_wedged :
      (articles : List ParsedArticle) (c : db.Conn) (d : List Row)
      → articles ≢ []
      → (db.view c).draft ≡ some d
      → let r = upsert_batch j db now_iso now_epoch trace_id articles c in
        (r.1 ≡ none) × (db.view r.0 ≡ db.view c)
  unfolding upsert_batch
  upsert_batch_wedged articles c d ne open_draft =
      if_split (λ (r : db.Conn × Option ℕ). (r.1 ≡ none) × (db.view r.0 ≡ db.view c))
        (is_empty articles) (λ e. absurd (ne (is_empty→nil e)))
        (λ _.
          refused (db.exec_begin c) (λ e. cc ((laws.begin_ok c e).0, open_draft))
            (laws.begin_failed c))
    where
      refused :
          (o : db.Conn × Bool)
          → (o.1 ≡ true → ⊥)
          → (o.1 ≡ false → db.view o.0 ≡ db.view c)
          → let r = run_batch j db now_iso now_epoch trace_id articles o in
            (r.1 ≡ none) × (db.view r.0 ≡ db.view c)
      refused (c', true) never same = absurd (never refl)
      refused (c', false) never same = (refl, same refl)
