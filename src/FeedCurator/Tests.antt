-- ===== src/FeedCurator/Tests.antt =====
-- feed-curator on concrete inputs.
mod Summaries
mod Pages
mod Texts
mod Rounds
mod Maps
