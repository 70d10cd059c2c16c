-- ===== src/Lsp.antt =====
-- Messages of the Language Server Protocol on a pipe: src/lsp/comms.cpp.
pub mod Decimal
pub mod Reader
pub mod Writer
pub mod HeaderLines
pub mod RoundTrip
pub mod Sending
pub mod Types
