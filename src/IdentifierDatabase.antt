-- ===== src/IdentifierDatabase.antt =====
-- `IdentifierDatabase` of src/core/IdentifierDatabase.h and IdentifierDatabase.cpp. The maps are
-- association lists, iterated in the order of their entries: the source's hash maps leave the
-- order open. A method gives the state that it leaves, also where it throws.
pub mod Store
pub mod Search
