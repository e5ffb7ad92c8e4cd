-- ===== src/Storage/Table.antt =====
-- The table `articles` and what the SQL of services/storage/src/article_store.cpp says of it: the
-- upsert (kUpsertSql) and the selection of the digest (kTopSql). A table is a list of rows.
pub mod Keys
pub mod Top
pub mod Best
pub mod Order
pub mod Commute
use habr_parser.Base.{
  ℕ, List, [], ◌∷◌, Bool, true, false, not, ◌&&◌, ◌||◌, ℤ, Bytes, bytes_eq, ltb, ltb_ℤ, ◌==◌, take,
  if◌then◌else◌,
}
use habr_parser.Double.{Double}
use habr_parser.Config.{ScoreWeights}

pub record Row : Type 0 where
  pub article_id : Bytes
  pub url : Bytes
  pub title : Bytes
  pub author : Bytes
  -- a JSON array
  pub hubs : Bytes
  pub published_at : Bytes
  pub complexity : Bytes
  pub reading_time : Bytes
  pub votes : ℤ
  pub views : ℤ
  pub bookmarks : ℤ
  pub comments : ℤ
  pub first_seen_at : Bytes
  pub first_seen_epoch : ℤ
  pub updated_at : Bytes
  pub updated_epoch : ℤ
  pub trace_id : Bytes

-- DO UPDATE SET: every column but the key and the two of the first sighting.
unfoldable pub update_row : Row → Row → Row
update_row old excluded = record old {
  url = excluded.url;
  title = excluded.title;
  author = excluded.author;
  hubs = excluded.hubs;
  published_at = excluded.published_at;
  complexity = excluded.complexity;
  reading_time = excluded.reading_time;
  votes = excluded.votes;
  views = excluded.views;
  bookmarks = excluded.bookmarks;
  comments = excluded.comments;
  updated_at = excluded.updated_at;
  updated_epoch = excluded.updated_epoch;
  trace_id = excluded.trace_id;
}

-- INSERT … ON CONFLICT(article_id)
unfoldable pub upsert : Row → List Row → List Row
unfolding update_row
upsert row [] = row ∷ []
upsert row (r ∷ rows) =
    if bytes_eq r.article_id row.article_id then update_row r row ∷ rows else r ∷ upsert row rows

-- The upserts of several rows, in order.
abbrev pub upsert_all : List Row → List Row → List Row
upsert_all [] rows = rows
upsert_all (r ∷ rs) rows = upsert_all rs (upsert r rows)

-- The comparison of texts: that of their bytes.
unfoldable pub bytes_lt : Bytes → Bytes → Bool
bytes_lt [] [] = false
bytes_lt [] (y ∷ ys) = true
bytes_lt (x ∷ xs) [] = false
bytes_lt (x ∷ xs) (y ∷ ys) = ltb x y || ((x == y) && bytes_lt xs ys)

module _ {F : Type 0} (fl : Double F) (weights : ScoreWeights F) where
  unfoldable pub score : Row → F
  score r =
      fl.add
        (fl.add
          (fl.add (fl.mul (fl.of_ℤ r.votes) weights.votes)
            (fl.mul (fl.of_ℤ r.bookmarks) weights.bookmarks))
          (fl.mul (fl.of_ℤ r.comments) weights.comments))
        (fl.mul (fl.of_ℤ r.views) weights.views)

  -- ORDER BY score DESC, votes DESC, article_id ASC: `a` comes strictly before `b`.
  unfoldable pub before : Row → Row → Bool
  before a b =
      fl.lt (score b) (score a)
      || (not (fl.lt (score a) (score b))
          && (ltb_ℤ b.votes a.votes
              || (not (ltb_ℤ a.votes b.votes) && bytes_lt a.article_id b.article_id)))

  unfoldable pub insert : Row → List Row → List Row
  insert r [] = r ∷ []
  insert r (x ∷ xs) = if before x r then x ∷ insert r xs else r ∷ x ∷ xs

  unfoldable pub order_by : List Row → List Row
  order_by [] = []
  order_by (r ∷ rows) = insert r (order_by rows)

  -- WHERE first_seen_epoch >= cutoff
  unfoldable pub since : ℤ → List Row → List Row
  since cutoff [] = []
  since cutoff (r ∷ rows) =
      let rest = since cutoff rows in if ltb_ℤ r.first_seen_epoch cutoff then rest else r ∷ rest

  -- kTopSql
  unfoldable pub select_top : ℤ → ℕ → List Row → List Row
  select_top cutoff limit rows = take limit (order_by (since cutoff rows))
