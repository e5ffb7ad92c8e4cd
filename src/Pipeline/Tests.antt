-- ===== src/Pipeline/Tests.antt =====
-- A page of one line on its way from the tick of the fetcher to the table.
use habr_parser.Base.{
  take, arith, ℤ, refl, ◌≡◌, pos, List, [], ◌∷◌, ◌++◌, true, none, some, Option, Bytes, utf8, All,
}
use habr_parser.Double.Whole.{whole}
use habr_parser.Json.Frames.{frames_json, frames-JsonLaws, every-Finite}
use habr_parser.Messages.{
  DigestArticle, DigestReadyMessage, digest_ready_exchange, raw_articles_queue,
  parsed_articles_queue,
}
use habr_parser.Codec.{
  digest_to_json, digest_article_to_json, raw_to_json, raw_from_json, parsed_to_json,
  article_to_json, parsed_from_json, article_from_json,
}
use habr_parser.Codec.Finite.{FiniteScore}
use habr_parser.Env.{is_space}
use habr_parser.Amqp.{
  Service, Ack, Frame, basic_publish, basic_ack, deliver, on_received, publish, publish_to_exchange,
}
use habr_parser.Samples.{
  fetcher_config, parser_config, one_page, online, storage_config, web_config, notifier_config,
  good_disk, row,
}
use habr_parser.Fetcher.{on_tick, get, raw_message, receive}
use habr_parser.Parser.Trim.{trim, skip_blanks}
use habr_parser.Parser.Count.{parse_count, scan_count, next_multiplier}
use habr_parser.Parser.Page.{
  parse_page, parse_nodes, read_article, text_of, attribute_of, text_at, attribute_at, hub_texts,
  absolute_url,
}
use habr_parser.Parser.Page.Lines.{lines}
use habr_parser.Parser.Service.{handle_raw_articles, parsed_message}
use habr_parser.Storage.Table.{
  upsert, update_row, select_top, since, order_by, insert, before, score, bytes_lt,
}
use habr_parser.Storage.Engine.{View}
use habr_parser.Storage.Engine.Memory.{memory, memory-SqliteLaws}
use habr_parser.Storage.Store.{
  upsert_batch, upsert_loop, bind_row, c_str, top_articles, digest_article, decode_hubs, cutoff_of,
}
use habr_parser.Storage.Service.{handle_parsed_articles, digest_message, publish_digest}
use habr_parser.Storage.Service.Publish.{ranked, IsDigest}
use habr_parser.Web
use habr_parser.Notifier
use habr_parser.Notifier.{Files, on_disk, render_digest_markdown, digest_path, latest_path}
use habr_parser.Notifier.Atomic.{Good}
use habr_parser.Pipeline.Digest.{publication_arrives}
use habr_parser.Pipeline.{Arrived, trace_id_arrives}

abbrev or_online : Option Service → Service
or_online none = online
or_online (some s) = s

-- The text of the first frame, which is a message.
abbrev first_payload : List Frame → Bytes
first_payload (basic_publish exchange key payload ∷ frames) = payload
first_payload frames = []

abbrev ticked : Option Service
ticked = on_tick frames_json fetcher_config true (utf8 "f") (utf8 "t") (utf8 "abcd") one_page online

abbrev page : Bytes
page = first_payload (or_online ticked).sent

abbrev delivered : Service
delivered =
    deliver (handle_raw_articles whole frames_json lines parser_config (utf8 "p") true) 1 page
      online

abbrev out : Bytes
out = first_payload delivered.sent

abbrev table : View
table = record { rows = []; draft = none }

ticks : ticked ≡ some (or_online ticked)
unfolding on_tick get raw_message receive raw_to_json utf8 publish
ticks = refl

sends_page : (or_online ticked).sent ≡ [] ++ basic_publish [] raw_articles_queue page ∷ []
unfolding on_tick get raw_message receive raw_to_json utf8 publish
sends_page = refl

sends_articles :
    delivered.sent ≡ [] ++ basic_publish [] parsed_articles_queue out ∷ basic_ack 1 ∷ []
unfolding on_tick get raw_message receive raw_to_json utf8 publish raw_from_json handle_raw_articles
    parsed_message parse_page parse_nodes read_article text_of attribute_of text_at attribute_at
    hub_texts absolute_url trim skip_blanks is_space parse_count scan_count next_multiplier
    parsed_to_json article_to_json deliver on_received
sends_articles = refl

acknowledged :
    (handle_parsed_articles frames_json memory (utf8 "now") (pos 9) out table).1 ≡ some Ack.ack
unfolding on_tick get raw_message receive raw_to_json utf8 publish raw_from_json handle_raw_articles
    parsed_message parse_page parse_nodes read_article text_of attribute_of text_at attribute_at
    hub_texts absolute_url trim skip_blanks is_space parse_count scan_count next_multiplier
    parsed_to_json article_to_json deliver on_received parsed_from_json article_from_json
    handle_parsed_articles upsert_batch upsert_loop bind_row c_str upsert update_row
acknowledged = refl

trace_id_arrives_example :
    Arrived frames_json memory
      (utf8 "now")
      (pos 9)
      (utf8 "abcd")
      ((parse_page lines whole parser_config.base_url
        (get one_page fetcher_config.user_agent fetcher_config.fetch_timeout_seconds
          fetcher_config.habr_url).body).articles)
      table
      (handle_parsed_articles frames_json memory (utf8 "now") (pos 9) out table).0
trace_id_arrives_example =
    trace_id_arrives whole frames_json frames-JsonLaws lines memory memory-SqliteLaws fetcher_config
      true (utf8 "f") (utf8 "t") (utf8 "abcd") one_page online page ticks sends_page parser_config
      (utf8 "p") true 1 online out (basic_ack 1) sends_articles (utf8 "now") (pos 9) table
      acknowledged

abbrev stored : View
stored = record { rows = row (utf8 "1") 7 ∷ row (utf8 "2") 8 ∷ []; draft = none }

abbrev digested : Option Service
digested =
    publish_digest frames_json memory storage_config true (utf8 "now") (pos 100) (utf8 "ef01")
      stored online

abbrev digest_out : Bytes
digest_out = first_payload (or_online digested).sent

digests : digested ≡ some (or_online digested)
unfolding publish_digest top_articles digest_message digest_article decode_hubs cutoff_of select_top
    since order_by insert before score bytes_lt digest_to_json digest_article_to_json
    publish_to_exchange utf8
digests = refl

sends_digest :
    (or_online digested).sent ≡ [] ++ basic_publish digest_ready_exchange [] digest_out ∷ []
unfolding publish_digest top_articles digest_message digest_article decode_hubs cutoff_of select_top
    since order_by insert before score bytes_lt digest_to_json digest_article_to_json
    publish_to_exchange utf8
sends_digest = refl

abbrev no_files : Files
no_files path = none

works : Good good_disk
works = record { opens = refl; whole = refl; renames = refl }

every_score : (xs : List (DigestArticle ℤ)) → All (FiniteScore frames_json frames-JsonLaws) xs
every_score [] = tt
every_score (x ∷ xs) = (every-Finite _, every_score xs)

publication_arrives_example :
    let r =
      Notifier.handle_digest_ready whole frames_json notifier_config good_disk good_disk digest_out
        no_files in
    (m : DigestReadyMessage ℤ) × IsDigest whole frames_json memory storage_config
      (utf8 "now")
      (pos 100)
      (utf8 "ef01")
      (ranked whole frames_json memory storage_config (utf8 "now") (pos 100) (utf8 "ef01") stored)
      m
    × (Web.handle_digest_ready whole frames_json web_config digest_out []
        ≡ (take web_config.history_size (m ∷ []), some Ack.ack))
    × (r.1 ≡ some Ack.ack)
    × (r.0 (digest_path notifier_config (utf8 "now"))
        ≡ some (on_disk (render_digest_markdown whole m) good_disk.lost))
    × (r.0 (latest_path notifier_config)
        ≡ some (on_disk (render_digest_markdown whole m) good_disk.lost))
publication_arrives_example =
    publication_arrives whole frames_json frames-JsonLaws memory memory-SqliteLaws storage_config
      (omega arith) true (utf8 "now") (pos 100) (utf8 "ef01") stored online digest_out
      (every_score _) digests sends_digest web_config [] notifier_config good_disk good_disk
      no_files works works
