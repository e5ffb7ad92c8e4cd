-- ===== src/Lib.antt =====
-- A model of habr-parser: five small services that fetch the listing page of habr.com, parse its
-- articles, store them, and publish and show a digest of the best. They talk over RabbitMQ, each in
-- one process with one event loop.
--
-- How the parts interact. Every service derives from `AmqpService`, which keeps the link to the
-- broker and calls the virtual members of the service. The fetcher publishes a page on a timer
-- (queue raw_articles); the parser turns a page into articles (queue parsed_articles); the storage
-- commits them to SQLite and, on its timer, publishes a digest (fanout exchange digest_ready), which
-- the notifier writes to files and the web service shows.
--
-- Files, with the code that they model:
--   Base       bytes, lists, integers and Boolean tests over the native numbers
--   Double     the type double, as a parameter with the laws that a theorem needs; Double/Whole is the
--              instance over the whole numbers on which the tests run
--   Env, Config  shared/cpp/messaging/src/amqp_service.cpp (ReadStringEnv, ReadUint32Env,
--              LoadAmqpConfigFromEnv) and services/*/src/config.cpp
--   Messages, Json, Codec  shared/cpp/messaging/include/messaging/messages.hpp; nlohmann_json is a
--              parameter with laws, Json/Frames an instance
--   Amqp       shared/cpp/messaging/src/amqp_service.cpp: `Service` is the object, one function for
--              each member function; Amqp/Step is the event loop as a step relation over what
--              the connection, the consumer, the signals and the timers do
--   Hooks      the virtual members of the five services, that they meet the laws of Amqp, and what
--              holds of each service in every order of events (Hooks/Services); Hooks/Runs adds what a
--              service keeps of its deliveries, the state of Storage/Run, Web/Run and Notifier/Run
--   Entry      services/*/src/main.cpp, and the constructors and destructors of AmqpService,
--              ArticleStore and WebService, as recorded calls of the libraries
--   Fetcher    services/fetcher/src/fetcher.cpp and http_client.cpp
--   Parser     services/parser/src/html_parser.cpp and parser_service.cpp; libxml2 is a parameter
--   Storage    services/storage/src/article_store.cpp and storage_service.cpp: Table is the meaning of
--              the SQL, Engine is SQLite as a parameter with laws, Store is `ArticleStore`; Table/Best is
--              what the digest query asks for, read off its clauses; Table/Order and Table/Commute read a
--              table as the set of its rows; Statement is the class `Statement` over
--              the C interface of SQLite, with the numbered parameters and columns
--   Html, Style, Web  services/web/src/html_view.cpp and web_service.cpp
--   Notifier   services/notifier/src/notifier_service.cpp and digest_writer.cpp
--   TraceId, Clock  shared/cpp/common/src/time_util.cpp (GenerateTraceId, NowIso8601Utc)
--   Log        shared/cpp/common/src/log.cpp and include/common/log.hpp
--   Pipeline   one page on its way through the fetcher, the parser and the storage
--   Samples    the inputs of the tests, which stand in the modules named Tests
--
-- Conventions. A std::string is a list of bytes, a stream what was written to it. `none` stands for
-- an exception. What the code reads from outside (the clock, random ids, answers of a library) is an
-- argument. What a service asks of its channel is recorded in order in its field `sent`, also a
-- publish that the library refuses. Unsigned numbers wrap where the source casts them.
--
-- Fuel. `shrink` (the loop that cuts the history) is given the length of the history, as each round
-- takes an element off; the print of a number is given a fuel beyond its digits; the decoder of
-- escaped text, which is not code, is given the length of the text; a trace id is printed with fuel
-- for the eight digits of a 32-bit number. The two loops of `Trim` are given a round for each byte
-- and one more, which Parser/Trim/Loops shows to be enough, that of TopArticles a round for each row
-- and one more, and a calendar date is found from a day number in at most so many years. Everything
-- else is recursion on the structure of its input.
--
-- Not modelled: what each service writes to the log, the reading of the clock and the random number
-- (arguments where they are read), instants before 1970, the overflow of a negation (FormatNumber of
-- INT64_MIN), and memory management. The answers of libevent, evhttp, SQLite, libxml2, libcurl and
-- the file system are arguments or parameters. The frames of AMQP-CPP are taken to be sent in the
-- order of the calls. An exception out of a callback of the loop (a tick, or a request to the web
-- service) ends the program: it leaves the loop, and `main` turns it into exit code 1. The states
-- that the loop can reach leave such ticks out of account; Entry/Exit has them.
pub mod Base
pub mod Double
pub mod Messages
pub mod Env
pub mod Config
pub mod Json
pub mod Codec
pub mod Amqp
pub mod Parser
pub mod Style
pub mod Html
pub mod Web
pub mod Storage
pub mod Notifier
pub mod Fetcher
pub mod Hooks
pub mod Entry
pub mod Pipeline
pub mod TraceId
pub mod Clock
pub mod Log
pub mod Samples
