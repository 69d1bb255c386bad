-- ===== src/FeedApi.antt =====
-- feed-api
pub mod Models
pub mod Startup
pub mod Paginate
pub mod UserStatus
pub mod FindArticle
pub mod Handlers
pub mod Middleware
pub mod Routes
pub mod Server
pub mod LogSync
pub mod Tests
pub mod Blocked
