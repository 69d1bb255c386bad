-- ===== src/Go.antt =====
-- The parts of the Go language and its standard library that the services use.
pub mod Int
pub mod Text
pub mod Trim
pub mod Atoi
pub mod Hex
pub mod Base64
pub mod Http
pub mod Net
pub mod Process
pub mod Path
pub mod Mux
mod Tests
