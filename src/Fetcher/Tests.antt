-- ===== src/Fetcher/Tests.antt =====
-- The fetcher on a transfer of two chunks.
use habr_parser.Base.{refl, ◌≡◌, true, none, some, utf8, Option}
use habr_parser.Json.Frames.{frames_json, frames-JsonLaws}
use habr_parser.Codec.{raw_to_json}
use habr_parser.Amqp.{Service, publish}
use habr_parser.Samples.{fetcher_config, one_page, online}
use habr_parser.Fetcher.{get, raw_message, on_tick, receive}
use habr_parser.Fetcher.Tick.{Sent, on_tick-Sent}

abbrev ticked : Option Service
ticked = on_tick frames_json fetcher_config true (utf8 "f") (utf8 "t") (utf8 "abcd") one_page online

abbrev or_online : Option Service → Service
or_online none = online
or_online (some s) = s

ticks : ticked ≡ some (or_online ticked)
unfolding on_tick get raw_message receive raw_to_json utf8 publish
ticks = refl

on_tick-Sent_example :
    Sent frames_json fetcher_config
      (utf8 "f")
      (utf8 "t")
      (utf8 "abcd")
      (get one_page fetcher_config.user_agent fetcher_config.fetch_timeout_seconds
        fetcher_config.habr_url)
      online
      (or_online ticked)
on_tick-Sent_example =
    on_tick-Sent frames_json frames-JsonLaws fetcher_config true (utf8 "f") (utf8 "t") (utf8 "abcd")
      one_page online ticks
