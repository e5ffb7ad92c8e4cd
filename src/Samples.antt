-- ===== src/Samples.antt =====
-- Concrete configurations and messages, on which the tests run.
use habr_parser.Hooks.Services.{Setup, Input}
use habr_parser.Storage.Engine.{View}
use habr_parser.Base.{ℕ, ℤ, pos, Option, [], ◌∷◌, true, false, none, some, Bytes, utf8}
use habr_parser.Messages.{
  RawArticlesMessage, ParsedArticle, ParsedArticlesMessage, DigestArticle, DigestReadyMessage,
}
use habr_parser.Json.Frames.{frames_json}
use habr_parser.Codec.{encode_raw, encode_parsed, encode_digest}
use habr_parser.Config.{
  AmqpConfig, FetcherConfig, ParserConfig, ScoreWeights, StorageConfig, NotifierConfig, WebConfig,
}
use habr_parser.Amqp.{Service}
use habr_parser.Storage.Table.{Row}
use habr_parser.Fetcher.{Curl}
use habr_parser.Notifier.{Disk}
use habr_parser.Hooks.{Reading}

abbrev pub amqp : AmqpConfig
amqp = record {
  host = utf8 "localhost";
  port = 5672;
  user = utf8 "guest";
  password = utf8 "guest";
  vhost = utf8 "/";
  max_reconnect_attempts = 2;
  reconnect_delay_seconds = 3;
}

abbrev pub fetcher_config : FetcherConfig
fetcher_config = record {
  amqp = amqp;
  habr_url = utf8 "https://habr.com/";
  interval_seconds = 300;
  fetch_timeout_seconds = 10;
  user_agent = utf8 "test";
}

abbrev pub parser_config : ParserConfig
parser_config = record { amqp = amqp; base_url = utf8 "https://habr.com"; prefetch = 1 }

abbrev pub weights : ScoreWeights ℤ
weights = record { votes = pos 4; bookmarks = pos 3; comments = pos 2; views = pos 1 }

abbrev pub storage_config : StorageConfig ℤ
storage_config = record {
  amqp = amqp;
  database_path = utf8 "/data/habr.db";
  digest_interval_seconds = 120;
  digest_period_hours = 24;
  digest_top_n = 1;
  weights = weights;
  prefetch = 1;
}

abbrev pub notifier_config : NotifierConfig
notifier_config = record { amqp = amqp; output_dir = utf8 "/data"; prefetch = 1 }

abbrev pub web_config : WebConfig
web_config = record {
  amqp = amqp;
  http_bind = utf8 "0.0.0.0";
  http_port = 8080;
  history_size = 1;
  prefetch = 1;
}

abbrev pub raw : RawArticlesMessage
raw = record {
  fetch_id = utf8 "f";
  source_url = utf8 "https://habr.com/";
  raw_html = utf8 "one\n\ntwo";
  fetched_at = utf8 "t";
  trace_id = utf8 "abcd";
}

abbrev pub article : Bytes → ℕ → ParsedArticle
article article_id votes = record {
  article_id = article_id;
  url = utf8 "https://habr.com/1";
  title = utf8 "<b>";
  author = utf8 "a";
  published_at = [];
  hubs = utf8 "C++" ∷ utf8 "Go" ∷ [];
  complexity = [];
  reading_time = [];
  votes = pos votes;
  views = pos 1200;
  bookmarks = pos 3;
  comments = pos 0;
}

abbrev pub parsed : ParsedArticlesMessage
parsed = record {
  fetch_id = utf8 "f";
  source_url = utf8 "https://habr.com/";
  parsed_at = utf8 "p";
  trace_id = utf8 "abcd";
  articles = article (utf8 "1") 5 ∷ article (utf8 "2") 7 ∷ [];
}

abbrev pub digest_item : Bytes → ℤ → DigestArticle ℤ
digest_item title score = record {
  article_id = utf8 "1";
  url = utf8 "https://habr.com/1";
  title = title;
  author = utf8 "a";
  published_at = utf8 "p";
  hubs = utf8 "C++" ∷ [];
  votes = pos 5;
  views = pos 1200;
  bookmarks = pos 3;
  comments = pos 0;
  score = score;
  source_trace_id = utf8 "abcd";
}

abbrev pub digest : Bytes → DigestReadyMessage ℤ
digest title = record {
  digest_id = utf8 "2024-01-01T00:00:00Z";
  generated_at = utf8 "2024-01-01T00:00:00Z";
  trace_id = utf8 "ef01";
  period_hours = 24;
  articles = digest_item title (pos 12) ∷ [];
}

abbrev pub row : Bytes → ℕ → Row
row article_id seen = record {
  article_id = article_id;
  url = utf8 "u";
  title = utf8 "t";
  author = utf8 "a";
  hubs = [];
  published_at = [];
  complexity = [];
  reading_time = [];
  votes = pos 5;
  views = pos 10;
  bookmarks = pos 0;
  comments = pos 1;
  first_seen_at = utf8 "s";
  first_seen_epoch = pos seen;
  updated_at = utf8 "s";
  updated_epoch = pos seen;
  trace_id = utf8 "abcd";
}

-- A response with a page, in two chunks.
abbrev pub one_page : Curl
one_page request =
    some (record { chunks = utf8 "<ht" ∷ utf8 "ml>" ∷ []; failure = none; status = 200 })

abbrev pub good_disk : Disk
good_disk = record { opens = true; torn = none; lost = none; renames = true; removes = true }

abbrev pub reading : Reading
reading = record {
  accepted = true;
  now_iso = utf8 "2024-01-01T00:00:00Z";
  later_iso = utf8 "2024-01-01T00:00:01Z";
  now_epoch = pos 1704067200;
  trace_id = utf8 "ef01";
  tag = 1;
  payload = [];
}

-- A service whose channel is ready.
abbrev pub online : Service
online = record {
  config = amqp;
  exit_code = 0;
  reconnect_attempts = 0;
  channel_ready = true;
  shutting_down = false;
  reconnect_scheduled = false;
  timer_interval_seconds = 120;
  timer_armed = true;
  connection = true;
  channel = true;
  sent = [];
  connects = 1;
  timer_pending = true;
  ticks_due = 0;
  reconnects_due = 0;
  forced_exits_due = 0;
  exit_requested = false;
}

abbrev text_or_empty : Option Bytes → Bytes
text_or_empty none = []
text_or_empty (some text) = text

-- The messages as they travel.
abbrev pub raw_text : Bytes
raw_text = text_or_empty (encode_raw frames_json raw)

abbrev pub parsed_text : Bytes
parsed_text = text_or_empty (encode_parsed frames_json parsed)

abbrev pub digest_text : Bytes → Bytes
digest_text title = text_or_empty (encode_digest frames_json (digest title))

-- The services' configurations, and an event whose delivery is empty.
abbrev pub setup : Setup ℤ
setup = record {
  fetcher = fetcher_config;
  parser = parser_config;
  storage = storage_config;
  notifier = notifier_config;
  web = web_config;
}

abbrev pub input : Input ℤ View
input = record {
  curl = one_page;
  conn = record { rows = []; draft = none };
  first = good_disk;
  second = good_disk;
  files = λ path. none;
  digests = [];
  reading = reading;
}
