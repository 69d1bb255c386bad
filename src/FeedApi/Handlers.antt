-- ===== src/FeedApi/Handlers.antt =====
-- feed-api/handlers/handlers.go and feed-api/utils/utils.go
pub mod Base
pub mod Lists
pub mod Detail
pub mod Numbers
pub mod Served
pub mod Total
pub mod Counted
pub mod Ends
pub mod Opened
