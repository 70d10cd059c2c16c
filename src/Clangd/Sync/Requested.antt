-- ===== src/Clangd/Sync/Requested.antt =====
-- The documents that the language server has after a synchronisation.
use ycmd_cpp.Base.{
  ℕ, ◌≡◌, refl, ap, ◌∙◌, Option, none, some, ◌==◌, arith, Bool-cases, inl, inr, Bytes, Dict, find,
}
use ycmd_cpp.Api.{FileData}
use ycmd_cpp.Clangd.Sync.{File, uri, sync_files}
use ycmd_cpp.Clangd.Sync.Laws.{IsMap}
use ycmd_cpp.Clangd.Sync.Documents.{
  Documents, AllAbsolute, notify_all, document, notify_all-sync_files,
}
use ycmd_cpp.Clangd.Sync.Consistency.{Agrees, IsConsistent}

abbrev pub text_of : Option (ℕ × Bytes) → Option Bytes
text_of none = none
text_of (some doc) = some doc.1

-- The text that a document is to have, from the file in the request and the text before.
abbrev pub asked : Option FileData → Option Bytes → Option Bytes
asked none before = before
asked (some d) before = some d.contents

module _ (xxh64 : Bytes → ℕ) where
  -- The hash tells the text of a file in a request from another one that the server has.
  abbrev pub IsToldApart : Option FileData → Option (ℕ × Bytes) → Type 0
  IsToldApart request before =
      (d : FileData) (old : ℕ × Bytes)
      → request ≡ some d
      → before ≡ some old
      → xxh64 old.1 ≡ xxh64 d.contents
      → old.1 ≡ d.contents

  text_of-document :
      (entry : Option File) (request : Option FileData) (before : Option (ℕ × Bytes))
      → ((f : File) → entry ≡ some f → Agrees xxh64 f before)
      → IsToldApart request before
      → text_of (document xxh64 entry request before) ≡ asked request (text_of before)
  unfolding document
  text_of-document entry none before agree apart = refl
  text_of-document none (some d) before agree apart = refl
  text_of-document (some f) (some d) before agree apart =
      let (text, has, hash) = agree f refl in
      elim (Bool-cases (f.hash == xxh64 d.contents)) [
        | inl same ↦
            (let equal = apart d (f.version, text) refl has (hash ∙ ground (arith, same)) in
              rw (same, has) (ap some equal))
        | inr differ ↦ rw (differ, has) refl
      ]

  -- After a synchronisation the server has, for each file of the request, a document with the
  -- contents of the file in the request, whether the file was listed or not, and for any other file
  -- the text that it had before, as a close names the path where an open named the URI; if the list of
  -- open files is consistent with the documents, all paths are absolute, and the hash tells the
  -- contents from the text before.
  pub text_of-notify_all-sync_files :
      (opened : Dict File) (file_data : Dict FileData) (docs : Documents) (name : Bytes)
      → IsMap file_data
      → AllAbsolute file_data
      → AllAbsolute opened
      → IsConsistent xxh64 opened docs
      → IsToldApart (find name file_data) (docs (uri name))
      → text_of (notify_all (sync_files xxh64 opened file_data).1 docs (uri name))
        ≡ asked (find name file_data) (text_of (docs (uri name)))
  text_of-notify_all-sync_files opened file_data docs name v named all agree apart =
      rw (notify_all-sync_files xxh64 opened file_data docs name v named all) (
        text_of-document (find name opened) (find name file_data) (docs (uri name)) (agree name)
          apart)
