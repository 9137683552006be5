-- ===== src/Controllers.antt =====
-- The HTTP handlers: controllers.
pub mod Account
pub mod Linking
pub mod Monitoring
pub mod Nodes
