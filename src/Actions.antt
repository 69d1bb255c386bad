-- ===== src/Actions.antt =====
-- actions/: bookmarks of users, and their login to Notion.
pub mod Models
pub mod Startup
pub mod Base
pub mod Access
pub mod Bookmarks
pub mod Session
pub mod Routes
pub mod Tests
