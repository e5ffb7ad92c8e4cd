-- ===== src/Parser.antt =====
-- The parser service (services/parser/src): cleaning of texts and counters, the extraction of articles from a
-- page, and the handler that turns raw pages into parsed articles.
pub mod Trim
pub mod Count
pub mod Page
pub mod Service
mod Tests
