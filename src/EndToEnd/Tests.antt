-- ===== src/EndToEnd/Tests.antt =====
-- The services on worlds in memory.
mod Wire
mod Round
mod Served
mod Outages
mod Statuses
