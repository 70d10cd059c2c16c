-- ===== src/Clangd.antt =====
-- `ClangdCompleter` of src/completers/cpp/clangd_completer.cpp: the client of clangd.
pub mod Pending
pub mod Pump
pub mod Messages
pub mod Params
pub mod Sync
pub mod Completion
