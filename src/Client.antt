-- ===== src/Client.antt =====
-- The client program: client/client.cpp.
pub mod Requests
pub mod Replies
pub mod Waiting
pub mod Procedures
pub mod Output
pub mod Init
pub mod Search
pub mod Upload
pub mod Transfer
pub mod Commands
