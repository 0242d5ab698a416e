-- ===== src/Server.antt =====
-- server/: the server node.
pub mod FileSet
pub mod Storage
pub mod Request
pub mod FilesList
pub mod FileSystem
pub mod Upload
pub mod Remove
pub mod Download
pub mod Discover
pub mod Run
pub mod Init
pub mod Threads
pub mod Buffer
pub mod Consistency
pub mod Store
