-- ===== src/Lsp/Client.antt =====
-- src/lsp/client.rs: the client of a language server.
pub mod Actor
pub mod Answers
pub mod Documents
pub mod Mirror
