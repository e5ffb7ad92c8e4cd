-- ===== src/Config/Bounds.antt =====
-- Whatever the environment holds, the configurations stay in range.
use habr_parser.Base.{◌^◌, ◌≤◌, ◌<◌, arith, utf8}
use habr_parser.Double.{Double}
use habr_parser.Env.{Environ}
use habr_parser.Env.Numbers.{read_uint32_env-lt}
use habr_parser.Config.{load_fetcher, load_parser, ScoreWeights, load_storage, load_web}

-- Whatever the environment holds, the fetcher's interval and timeout are 32-bit numbers that are not
-- 0: no timer that keeps the event loop busy, and no request without timeout.
load_fetcher_bounds :
    (env : Environ)
    → let c = load_fetcher env in
      (1 ≤ c.interval_seconds)
      × (c.interval_seconds < 2 ^ 32)
      × (1 ≤ c.fetch_timeout_seconds)
      × (c.fetch_timeout_seconds < 2 ^ 32)
unfolding load_fetcher
load_fetcher_bounds env = ground (
  arith,
  read_uint32_env-lt env (utf8 "FETCH_INTERVAL_SECONDS") 300,
  read_uint32_env-lt env (utf8 "FETCH_TIMEOUT_SECONDS") 10,
)

-- Whatever the environment holds, the parser's prefetch limit is from 1 to 1000.
load_parser_bounds :
    (env : Environ) → (1 ≤ (load_parser env).prefetch) × ((load_parser env).prefetch ≤ 1000)
unfolding load_parser
load_parser_bounds env = ground arith

-- The storage has no timer with interval 0, and the period and the size of its digests are 32-bit
-- numbers that are not 0.
load_storage_bounds :
    {F : Type 0} (fl : Double F) (weights : ScoreWeights F) (env : Environ)
    → let c = load_storage fl weights env in
      (1 ≤ c.digest_interval_seconds)
      × (1 ≤ c.digest_period_hours)
      × (c.digest_period_hours < 2 ^ 32)
      × (1 ≤ c.digest_top_n)
      × (c.digest_top_n < 2 ^ 32)
unfolding load_storage
load_storage_bounds fl weights env = ground (
  arith,
  read_uint32_env-lt env (utf8 "DIGEST_PERIOD_HOURS") 24,
  read_uint32_env-lt env (utf8 "DIGEST_TOP_N") 10,
)

-- Whatever the environment holds, the HTTP port is from 1 to 65535 and the size of the history is a
-- 32-bit number that is not 0.
load_web_bounds :
    (env : Environ)
    → let c = load_web env in
      (1 ≤ c.http_port) × (c.http_port ≤ 65535) × (1 ≤ c.history_size) × (c.history_size < 2 ^ 32)
unfolding load_web
load_web_bounds env = ground (arith, read_uint32_env-lt env (utf8 "DIGEST_HISTORY_SIZE") 20)

-- Whatever the environment holds, the interval and the timeout of the fetcher, the period and the
-- size of the storage's digests and the size of the web service's history are 32-bit numbers that
-- are not 0; the storage has no timer with interval 0; the parser's prefetch limit is from 1 to 1000
-- and the HTTP port from 1 to 65535.
pub load_bounds :
    {F : Type 0} (fl : Double F) (weights : ScoreWeights F) (env : Environ)
    → let f = load_fetcher env in
      let s = load_storage fl weights env in
      let w = load_web env in
      ((1 ≤ f.interval_seconds)
        × (f.interval_seconds < 2 ^ 32)
        × (1 ≤ f.fetch_timeout_seconds)
        × (f.fetch_timeout_seconds < 2 ^ 32))
      × ((1 ≤ (load_parser env).prefetch) × ((load_parser env).prefetch ≤ 1000))
      × ((1 ≤ s.digest_interval_seconds)
          × (1 ≤ s.digest_period_hours)
          × (s.digest_period_hours < 2 ^ 32)
          × (1 ≤ s.digest_top_n)
          × (s.digest_top_n < 2 ^ 32))
      × ((1 ≤ w.http_port)
          × (w.http_port ≤ 65535)
          × (1 ≤ w.history_size)
          × (w.history_size < 2 ^ 32))
load_bounds fl weights env = (
  load_fetcher_bounds env,
  load_parser_bounds env,
  load_storage_bounds fl weights env,
  load_web_bounds env,
)
