-- ===== src/Handlers.antt =====
-- Requests of the editor: src/handlers.cpp, and the server's state, src/server.cpp.
pub mod Filter
pub mod Completions
pub mod Session
pub mod Run
pub mod Reply
