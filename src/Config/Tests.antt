-- ===== src/Config/Tests.antt =====
-- The configurations of the empty environment, and of one in which every variable is 70000.
use habr_parser.Base.{
  refl, ◌≡◌, ◌<◌, ◌≤◌, ◌%◌, ◌^◌, ◌&&◌, none, some, utf8, to_string, leb, if◌then◌else◌, arith,
}
use habr_parser.Double.Whole.{whole}
use habr_parser.Env.{Environ, read_uint32_env, read_string_env}
use habr_parser.Samples.{weights}
use habr_parser.Config.{load_amqp, load_fetcher, load_parser, load_storage, load_notifier, load_web}
use habr_parser.Config.Bounds.{load_bounds}
use habr_parser.Config.Ports.{load_ports}

abbrev unset : Environ
unset name = none

abbrev big : Environ
big name = some (to_string 70000)

defaults :
    ((load_amqp unset).port ≡ 5672)
    × ((load_fetcher unset).interval_seconds ≡ 300)
    × ((load_parser unset).prefetch ≡ 1)
    × ((load_storage whole weights unset).digest_top_n ≡ 10)
    × ((load_notifier unset).output_dir ≡ utf8 "/data/digests")
    × ((load_web unset).http_port ≡ 8080)
unfolding load_amqp load_fetcher load_parser load_storage load_notifier load_web read_uint32_env
    read_string_env
defaults = (refl, refl, refl, refl, refl, refl)

load_bounds_example :
    let f = load_fetcher big in
    let s = load_storage whole weights big in
    let w = load_web big in
    ((1 ≤ f.interval_seconds)
      × (f.interval_seconds < 2 ^ 32)
      × (1 ≤ f.fetch_timeout_seconds)
      × (f.fetch_timeout_seconds < 2 ^ 32))
    × ((1 ≤ (load_parser big).prefetch) × ((load_parser big).prefetch ≤ 1000))
    × ((1 ≤ s.digest_interval_seconds)
        × (1 ≤ s.digest_period_hours)
        × (s.digest_period_hours < 2 ^ 32)
        × (1 ≤ s.digest_top_n)
        × (s.digest_top_n < 2 ^ 32))
    × ((1 ≤ w.http_port) × (w.http_port ≤ 65535) × (1 ≤ w.history_size) × (w.history_size < 2 ^ 32))
load_bounds_example = load_bounds whole weights big

load_ports_example :
    ((load_amqp big).port ≡ 70000 % 2 ^ 16)
    × ((load_web big).http_port
        ≡ (if leb 1 (70000 % 2 ^ 32) && leb (70000 % 2 ^ 32) 65535 then 70000 % 2 ^ 32 else 8080))
load_ports_example = load_ports big 70000 70000 refl (omega arith) refl (omega arith)
