-- ===== src/Tests.antt =====
-- Runs of the definitions at concrete inputs, and the theorems at inputs that meet their
-- hypotheses.
mod Data
mod Core
mod Database
mod Lsp
mod Requests
mod Handlers
mod Tags
mod Json
mod System
mod Sessions
mod Replies
