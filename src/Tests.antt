-- ===== src/Tests.antt =====
-- The theorems at concrete inputs.
pub mod Data
pub mod Server
pub mod Client
pub mod Protocol
pub mod Exchange
pub mod Start
pub mod Session
pub mod Crash
pub mod Search
pub mod Buffer
pub mod Sockets
pub mod Threads
