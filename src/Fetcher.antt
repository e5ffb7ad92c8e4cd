-- ===== src/Fetcher.antt =====
-- The fetcher: `Fetcher` of services/fetcher/src/fetcher.cpp and `HttpClient` of http_client.cpp.
-- libcurl, the clock and the random trace id are arguments.
pub mod Response
pub mod Tick
mod Tests
use habr_parser.Base.{
  ℕ, List, [], ◌∷◌, ◌++◌, Bool, true, false, ◌&&◌, Option, none, some, Bytes, utf8, to_string, ltb,
  leb, if◌then◌else◌,
}
use habr_parser.Json.{Json}
use habr_parser.Messages.{RawArticlesMessage, raw_articles_queue}
use habr_parser.Codec.{encode_raw}
use habr_parser.Config.{FetcherConfig}
use habr_parser.Amqp.{Service, declare_queue, start_timer, publish}

pub record HttpResponse : Type 0 where
  pub ok : Bool
  pub status_code : ℕ
  pub body : Bytes
  pub error : Bytes

-- The options that are set on the handle.
pub record Request : Type 0 where
  pub url : Bytes
  pub headers : List Bytes
  pub user_agent : Bytes
  pub timeout : ℕ
  pub connect_timeout : ℕ
  pub follow_location : Bool
  pub max_redirs : ℕ
  pub accept_encoding : Bytes
  pub no_signal : Bool

-- What libcurl does with a request: the chunks it hands to the callback, the text of its error if
-- it failed, and the status of the response.
pub record Transfer : Type 0 where
  pub chunks : List Bytes
  pub failure : Option Bytes
  pub status : ℕ

-- `none`: no handle can be created.
abbrev pub Curl : Type 0
Curl = Request → Option Transfer

pub request_of : Bytes → ℕ → Bytes → Request
request_of user_agent timeout_seconds url = record {
  url = url;
  headers =
      utf8 "Accept: text/html,application/xhtml+xml" ∷ utf8 "Accept-Language: ru,en;q=0.9" ∷ [];
  user_agent = user_agent;
  timeout = timeout_seconds;
  connect_timeout = 5;
  follow_location = true;
  max_redirs = 3;
  accept_encoding = [];
  no_signal = true;
}

-- `WriteCallback`, once for each chunk.
unfoldable pub receive : Bytes → List Bytes → Bytes
receive body [] = body
receive body (chunk ∷ chunks) = receive (body ++ chunk) chunks

abbrev pub checked : Bytes → ℕ → HttpResponse
checked body status =
    if leb 200 status && ltb status 300
    then record { ok = true; status_code = status; body = body; error = [] }
    else record {
      ok = false;
      status_code = status;
      body = [];
      error = utf8 "unexpected HTTP status " ++ to_string status;
    }

abbrev pub performed : Bytes → Option Bytes → ℕ → HttpResponse
performed body (some reason) status = record {
  ok = false;
  status_code = 0;
  body = [];
  error = reason;
}
performed body none status = checked body status

abbrev pub response_of : Option Transfer → HttpResponse
response_of none = record {
  ok = false;
  status_code = 0;
  body = [];
  error = utf8 "curl_easy_init failed";
}
response_of (some t) = performed (receive [] t.chunks) t.failure t.status

-- `HttpClient::Get`
unfoldable pub get : Curl → Bytes → ℕ → Bytes → HttpResponse
get curl user_agent timeout_seconds url =
    response_of (curl (request_of user_agent timeout_seconds url))

unfoldable pub on_channel_ready : FetcherConfig → Service → Service
on_channel_ready config s =
    start_timer config.interval_seconds true (declare_queue raw_articles_queue s)

unfoldable pub raw_message : FetcherConfig → Bytes → Bytes → Bytes → Bytes → RawArticlesMessage
raw_message config fetch_id fetched_at trace_id body = record {
  fetch_id = fetch_id;
  source_url = config.habr_url;
  raw_html = body;
  fetched_at = fetched_at;
  trace_id = trace_id;
}

module _ {F : Type 0} (j : Json F) (config : FetcherConfig) (accepted : Bool)
    (fetch_id fetched_at trace_id : Bytes) where
  -- `none`: the dump throws, out of the timer's callback.
  abbrev pub send_page : Option Bytes → Service → Option Service
  send_page none s = none
  send_page (some payload) s = some (publish accepted raw_articles_queue payload s).0

  abbrev pub publish_page : HttpResponse → Service → Option Service
  publish_page response s =
      if response.ok
      then send_page (encode_raw j (raw_message config fetch_id fetched_at trace_id response.body))
          s
      else some s

  -- `OnTick`
  unfoldable pub on_tick : Curl → Service → Option Service
  on_tick curl s =
      publish_page (get curl config.user_agent config.fetch_timeout_seconds config.habr_url) s
