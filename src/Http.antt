-- ===== src/Http.antt =====
-- internal/protocol/http: the segmented HTTP fetcher.
pub mod SlowStart
pub mod Connection
pub mod Split
pub mod Transfer
pub mod Completion
pub mod Range
pub mod Attempt
pub mod Retry
mod Tests
