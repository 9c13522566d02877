-- ===== src/Session.antt =====
-- Package session: the stores and the manager over them.
pub mod Config
pub mod Cookie
pub mod Redis
pub mod Database
pub mod Stores
pub mod Random
pub mod Manager
