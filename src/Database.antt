-- ===== src/Database.antt =====
-- server/src/database: what the server knows of its clients.
pub mod ClientData
pub mod Manager
pub mod Archive
pub mod Storage
