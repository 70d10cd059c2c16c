-- ===== src/Lib.antt =====
-- Verification of ycmd-cpp, a completion server: the matching and ranking core, the requests that
-- use it, and the connection to the language server.
--
-- The program. A client sends HTTP requests (src/ycmd.cpp, src/handlers.cpp). A request names a
-- file and a cursor (src/request_wrap.cpp), from which the identifier to complete is computed
-- (src/identifier_utils.cpp). Candidates come from the identifier completer
-- (src/completers/general/identifier_completer.cpp), which keeps a database of identifiers by file
-- type and file (src/core), or from clangd (src/completers/cpp/clangd_completer.cpp), to which the
-- server speaks the Language Server Protocol over pipes (src/lsp).
--
-- The files, and the code that they model:
--   Base: names shared by all; strings are lists of byte values, hash maps association lists.
--   BreakProperty, CodePoint, CodePoint/Decode: src/core/CodePoint.{h,cpp}.
--   Character: src/core/Character.{h,cpp}; Character/Ordering says how its code points are ordered.
--   Word, Word/Break: src/core/Word.{h,cpp}; Word/Rules is the Unicode standard's description.
--   Candidate, Query: src/core/Candidate.{h,cpp}; Query/Embedding says what a match is.
--   Result, Result/Subsequence: src/core/Result.{h,cpp}.
--   Utils: src/core/Utils.h. Repository: src/core/Repository.h.
--   IdentifierDatabase: src/core/IdentifierDatabase.{h,cpp}.
--   Tags: src/core/IdentifierUtils.cpp.
--   Std: the contracts of the sorting algorithms of the C++ library.
--   Lsp/Decimal, Lsp/Reader, Lsp/Writer, Lsp/Sending: src/lsp/comms.cpp; Lsp/HeaderLines and Lsp/RoundTrip relate
--     what is written to what is read. Lsp/Types: src/lsp/lsp_types.hpp.
--   Json: src/json/json_serialisation.hpp. Api: src/api.hpp. Identifiers: src/identifier_utils.cpp.
--   Request: src/request_wrap.cpp.
--   Clangd/Pending, Clangd/Pump, Clangd/Sync, Clangd/Completion:
--     src/completers/cpp/clangd_completer.cpp; Clangd/Sync/Documents is the protocol's view of the
--     notifications. Clangd/Messages, Clangd/Params: src/lsp/lsp.hpp and the structs that are sent.
--   Completers: src/completers/general/identifier_completer.cpp.
--   Handlers/Filter, Handlers/Completions: src/handlers.cpp and src/server.cpp.
--   Handlers/Session, Handlers/Run: the dispatch and the loop of src/ycmd.cpp, with the handlers of
--     src/handlers.cpp behind it. Handlers/Reply: the response of a completion in JSON, src/api.hpp.
--   System: the server and the documents of its language server, as a step relation whose steps are
--     events and completions; the files below it compose the parts above.
--   Tests: runs at concrete inputs.
-- The files named Laws, Order, Prefix, Bounds, History, Sound, Found and the like hold the proofs about their parent.
--
-- Choices. Constructors that throw return `Decoded`; a method returns the state that it leaves
-- also where it throws. Loops recur on the list that they walk, or on fuel: the number of bytes of
-- the text in `split_fuel`, of code points in `canonical_sort_fuel` and of bytes of the stream in
-- `read_headers` and `read_fuel`, as each round takes at least one; `message_pump` has fuel for the
-- messages, one round each. A coroutine that waits for a
-- response is a value that the response releases; a method is otherwise one step. The objects that
-- repositories hand out never change, so a pointer to one is modelled by what it points to, and a
-- constructor that takes its parts from a repository by those parts. The order in which a hash map
-- is walked is open in the source; the model walks the entries in the order of their insertion.
--
-- Not modelled: the generated Unicode table, whose rows are an argument; the sorting algorithms,
-- which are a parameter with the guarantees of the C++ standard; regular expressions, the text
-- library and the hash of a file, which are parameters; the parsing of JSON; sockets; the start of
-- the language server; locks, which are commented out in the source; logging; sizes beyond 2 ^ 64,
-- as every counter is bounded by the length of a string.
pub mod Base
pub mod BreakProperty
pub mod CodePoint
pub mod Word
pub mod Std
pub mod Character
pub mod Candidate
pub mod Result
pub mod Query
pub mod Utils
pub mod Repository
pub mod IdentifierDatabase
mod Tests
pub mod Lsp
pub mod Clangd
pub mod Api
pub mod Json
pub mod Identifiers
pub mod Request
pub mod Tags
pub mod Completers
pub mod Handlers
pub mod System
