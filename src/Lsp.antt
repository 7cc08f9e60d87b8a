-- ===== src/Lsp.antt =====
-- The language server side.
pub mod Supervisor
pub mod Transport
pub mod Client
