-- ===== src/Exchange/Session.antt =====
-- Whole commands of the client (client/client.cpp) against rounds of `Server::run`
-- (server/server.cpp): every message and every byte goes through both programs.
pub mod Fetch
pub mod RoundTrip
pub mod Upload
pub mod Discovery
pub mod Removal
pub mod Crash
pub mod Search
pub mod Output
