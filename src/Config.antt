-- ===== src/Config.antt =====
-- `LoadConfigFromEnv` of the five services and `LoadAmqpConfigFromEnv`: the defaults of each
-- config.hpp, overridden by the environment and corrected by the guards of each config.cpp.
pub mod Bounds
pub mod Ports
mod Tests
use habr_parser.Base.{
  ℕ, ◌%◌, ◌^◌, Bool, ◌&&◌, ◌||◌, Option, none, some, Bytes, utf8, ltb, leb, ◌==◌, if◌then◌else◌,
}
use habr_parser.Double.{Double}
use habr_parser.Env.{Environ, stoul, read_uint32_env, read_string_env}

pub record AmqpConfig : Type 0 where
  pub host : Bytes
  pub port : ℕ
  pub user : Bytes
  pub password : Bytes
  pub vhost : Bytes
  pub max_reconnect_attempts : ℕ
  pub reconnect_delay_seconds : ℕ

-- The port is cast to uint16_t without a range check.
pub load_amqp : Environ → AmqpConfig
load_amqp env = record {
  host = read_string_env env (utf8 "RABBITMQ_HOST") (utf8 "localhost");
  port = read_uint32_env env (utf8 "RABBITMQ_PORT") 5672 % 2 ^ 16;
  user = read_string_env env (utf8 "RABBITMQ_USER") (utf8 "guest");
  password = read_string_env env (utf8 "RABBITMQ_PASSWORD") (utf8 "guest");
  vhost = read_string_env env (utf8 "RABBITMQ_VHOST") (utf8 "/");
  max_reconnect_attempts = read_uint32_env env (utf8 "RABBITMQ_MAX_RECONNECT_ATTEMPTS") 10;
  reconnect_delay_seconds = read_uint32_env env (utf8 "RABBITMQ_RECONNECT_DELAY_SECONDS") 3;
}

-- `if (value == 0) value = fallback;`
abbrev nonzero_or : ℕ → ℕ → ℕ
nonzero_or value fallback = if value == 0 then fallback else value

pub record FetcherConfig : Type 0 where
  pub amqp : AmqpConfig
  pub habr_url : Bytes
  pub interval_seconds : ℕ
  pub fetch_timeout_seconds : ℕ
  pub user_agent : Bytes

pub load_fetcher : Environ → FetcherConfig
load_fetcher env = record {
  amqp = load_amqp env;
  habr_url = read_string_env env (utf8 "HABR_URL") (utf8 "https://habr.com/ru/articles/top/daily/");
  interval_seconds = nonzero_or (read_uint32_env env (utf8 "FETCH_INTERVAL_SECONDS") 300) 300;
  fetch_timeout_seconds = nonzero_or (read_uint32_env env (utf8 "FETCH_TIMEOUT_SECONDS") 10) 10;
  user_agent = read_string_env env (utf8 "HTTP_USER_AGENT") (
      utf8
        "Mozilla/5.0 (Macintosh; Intel Mac OS X 10_15_7) AppleWebKit/537.36 (KHTML, like Gecko) Chrome/128.0.0.0 Safari/537.36");
}

pub record ParserConfig : Type 0 where
  pub amqp : AmqpConfig
  pub base_url : Bytes
  pub prefetch : ℕ

-- The parsed number is compared before the cast to uint16_t.
abbrev in_range_or : Option ℕ → ℕ → ℕ
in_range_or none fallback = fallback
in_range_or (some n) fallback = if leb 1 n && leb n 1000 then n % 2 ^ 16 else fallback

abbrev prefetch_or : Option Bytes → ℕ → ℕ
prefetch_or none fallback = fallback
prefetch_or (some raw) fallback = in_range_or (stoul raw) fallback

pub load_parser : Environ → ParserConfig
load_parser env = record {
  amqp = load_amqp env;
  base_url = read_string_env env (utf8 "HABR_BASE_URL") (utf8 "https://habr.com");
  prefetch = prefetch_or (env (utf8 "PARSER_PREFETCH")) 1;
}

pub record ScoreWeights (F : Type 0) : Type 0 where
  pub votes : F
  pub bookmarks : F
  pub comments : F
  pub views : F

pub record StorageConfig (F : Type 0) : Type 0 where
  pub amqp : AmqpConfig
  pub database_path : Bytes
  pub digest_interval_seconds : ℕ
  pub digest_period_hours : ℕ
  pub digest_top_n : ℕ
  pub weights : ScoreWeights F
  pub prefetch : ℕ

module _ {F : Type 0} (fl : Double F) where
  abbrev double_or : Option F → F → F
  double_or none fallback = fallback
  double_or (some x) fallback = x

  abbrev raw_double_or : Option Bytes → F → F
  raw_double_or none fallback = fallback
  raw_double_or (some raw) fallback = double_or (fl.stod raw) fallback

  -- `ReadDoubleEnv`
  pub read_double_env : Environ → Bytes → F → F
  read_double_env env name fallback = raw_double_or (env name) fallback

  pub load_storage : ScoreWeights F → Environ → StorageConfig F
  load_storage defaults env = record {
    amqp = load_amqp env;
    database_path = read_string_env env (utf8 "DATABASE_PATH") (utf8 "/data/habr.db");
    digest_interval_seconds =
        nonzero_or (read_uint32_env env (utf8 "DIGEST_INTERVAL_SECONDS") 120) 120;
    digest_period_hours = nonzero_or (read_uint32_env env (utf8 "DIGEST_PERIOD_HOURS") 24) 24;
    digest_top_n = nonzero_or (read_uint32_env env (utf8 "DIGEST_TOP_N") 10) 10;
    weights = record {
      votes = read_double_env env (utf8 "DIGEST_WEIGHT_VOTES") defaults.votes;
      bookmarks = read_double_env env (utf8 "DIGEST_WEIGHT_BOOKMARKS") defaults.bookmarks;
      comments = read_double_env env (utf8 "DIGEST_WEIGHT_COMMENTS") defaults.comments;
      views = read_double_env env (utf8 "DIGEST_WEIGHT_VIEWS") defaults.views;
    };
    prefetch = 1;
  }

pub record NotifierConfig : Type 0 where
  pub amqp : AmqpConfig
  pub output_dir : Bytes
  pub prefetch : ℕ

pub load_notifier : Environ → NotifierConfig
load_notifier env = record {
  amqp = load_amqp env;
  output_dir = read_string_env env (utf8 "DIGEST_OUTPUT_DIR") (utf8 "/data/digests");
  prefetch = 1;
}

pub record WebConfig : Type 0 where
  pub amqp : AmqpConfig
  pub http_bind : Bytes
  pub http_port : ℕ
  pub history_size : ℕ
  pub prefetch : ℕ

-- The check is made on the 32-bit number.
abbrev port_or : ℕ → ℕ → ℕ
port_or port fallback = if (port == 0) || ltb 65535 port then fallback else port % 2 ^ 16

pub load_web : Environ → WebConfig
load_web env = record {
  amqp = load_amqp env;
  http_bind = read_string_env env (utf8 "HTTP_BIND") (utf8 "0.0.0.0");
  http_port = port_or (read_uint32_env env (utf8 "HTTP_PORT") 8080) 8080;
  history_size = nonzero_or (read_uint32_env env (utf8 "DIGEST_HISTORY_SIZE") 20) 20;
  prefetch = 1;
}
