-- ===== src/Config/Ports.antt =====
-- What the port numbers of the configuration become.
use habr_parser.Base.{ℕ, ◌%◌, ◌^◌, ◌<◌, ◌≡◌, some, arith, utf8, to_string, leb, ◌&&◌, if◌then◌else◌}
use habr_parser.Env.{Environ}
use habr_parser.Env.Numbers.{read_uint32_env-to_string}
use habr_parser.Config.{load_amqp, load_web}

-- The port of the broker is the number in the environment modulo 2^16, without a range check: 70000
-- is taken for port 4464.
load_amqp_port :
    (env : Environ) (n : ℕ)
    → env (utf8 "RABBITMQ_PORT") ≡ some (to_string n)
    → n < 2 ^ 64
    → (load_amqp env).port ≡ n % 2 ^ 16
unfolding load_amqp
load_amqp_port env n e h =
    omega (arith, read_uint32_env-to_string env (utf8 "RABBITMQ_PORT") 5672 n e h)

-- The HTTP port is checked only after the number has been cut to 32 bits: it is the number modulo
-- 2^32 where that is from 1 to 65535, even for a number beyond 2^32, and 8080 otherwise.
load_web_port :
    (env : Environ) (n : ℕ)
    → env (utf8 "HTTP_PORT") ≡ some (to_string n)
    → n < 2 ^ 64
    → (load_web env).http_port
      ≡ (if leb 1 (n % 2 ^ 32) && leb (n % 2 ^ 32) 65535 then n % 2 ^ 32 else 8080)
unfolding load_web
load_web_port env n e h =
    rw (read_uint32_env-to_string env (utf8 "HTTP_PORT") 8080 n e h) (ground arith)

-- A number below 2^64 in the environment is cut before it is checked, or is not checked: that of the
-- broker's port is taken modulo 2^16; that of the HTTP port is taken modulo 2^32 where this is from
-- 1 to 65535, and gives 8080 otherwise.
pub load_ports :
    (env : Environ) (m n : ℕ)
    → env (utf8 "RABBITMQ_PORT") ≡ some (to_string m)
    → m < 2 ^ 64
    → env (utf8 "HTTP_PORT") ≡ some (to_string n)
    → n < 2 ^ 64
    → ((load_amqp env).port ≡ m % 2 ^ 16)
      × ((load_web env).http_port
          ≡ (if leb 1 (n % 2 ^ 32) && leb (n % 2 ^ 32) 65535 then n % 2 ^ 32 else 8080))
load_ports env m n em hm en hn = (load_amqp_port env m em hm, load_web_port env n en hn)
