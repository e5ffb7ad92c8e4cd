-- ===== src/Storage.antt =====
-- The storage service (services/storage/src): the table and its SQL statements, the store that runs
-- them, and the handlers that fill the table and publish digests.
pub mod Table
pub mod Engine
pub mod Store
pub mod Statement
pub mod Service
pub mod Run
mod Tests
