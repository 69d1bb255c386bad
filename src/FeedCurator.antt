-- ===== src/FeedCurator.antt =====
-- feed-curator
pub mod Models
pub mod Startup
pub mod Summarizer
pub mod Assistants
pub mod Fetcher
pub mod Utils
pub mod Storage
pub mod Round
mod Tests
