-- ===== src/FeedApi/Tests.antt =====
-- feed-api on concrete inputs.
pub mod Stores
mod Lists
mod Users
mod Counters
mod Blocking
mod Start
mod Routing
mod Server
mod Uploads
