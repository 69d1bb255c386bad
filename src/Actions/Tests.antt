-- ===== src/Actions/Tests.antt =====
-- The services of actions on concrete inputs.
pub mod Stores
mod Guests
mod Saved
mod Logins
mod Protocol
