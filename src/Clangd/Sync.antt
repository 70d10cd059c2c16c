-- ===== src/Clangd/Sync.antt =====
-- The files that clangd has open: `sync_files` of src/completers/cpp/clangd_completer.cpp. The hash
-- of the contents is a parameter, as the code of XXH64 is not part of the repository. A path is its
-- string, without a repeated separator, so that paths compare as strings. A version counts in ℕ
-- where the source has 64 bits.
pub mod Laws
pub mod Documents
pub mod Consistency
pub mod Requested
use Prim.Native.Char.{code}
use ycmd_cpp.Api.{FileData}
use ycmd_cpp.Base.{
  ℕ, ◌+◌, Bool, Option, none, some, List, [], ◌∷◌, ◌++◌, ◌==◌, if◌then◌else◌, Bytes, Dict, find,
  put,
}

pub record File : Type 0 where
  pub version : ℕ
  pub hash : ℕ

-- `URI`.
abbrev pub uri : Bytes → Bytes
uri file_path = b'f' ∷ b'i' ∷ b'l' ∷ b'e' ∷ b':' ∷ b'/' ∷ b'/' ∷ file_path

pub record TextDocumentItem : Type 0 where
  pub uri : Bytes
  pub language_id : Option Bytes
  pub version : ℕ
  pub text : Bytes

pub data Notification : Type 0 where
  did_open : TextDocumentItem → Notification
  did_change : Bytes → ℕ → Bytes → Notification
  did_close : Bytes → Notification

-- `filetypes[ 0 ]`, which is undefined where there is none.
unfoldable pub front : List Bytes → Option Bytes
front [] = none
front (filetype ∷ filetypes) = some filetype

-- The files that stay open, and the notifications that are sent.
abbrev pub Sent : Type 0
Sent = Dict File × List Notification

-- The second loop, which closes what the request does not name.
unfoldable pub close_missing : Dict FileData → Dict File → Sent
unfolding find
close_missing file_data [] = ([], [])
close_missing file_data ((filename, file) ∷ opened_files) =
    let rest = close_missing file_data opened_files in
    elim (find filename file_data) [
      | none ↦ (rest.0, did_close filename ∷ rest.1)
      | some filedata ↦ ((filename, file) ∷ rest.0, rest.1)
    ]

module _ (xxh64 : Bytes → ℕ) where
  -- One round of the first loop.
  unfoldable pub sync_file : Dict File → Bytes → FileData → Sent
  unfolding find put front
  sync_file opened_files filename filedata =
      let hash = xxh64 filedata.contents in
      elim (find filename opened_files) [
        | none ↦ (
          put filename (record { version = 1; hash = hash }) opened_files,
          did_open (record {
            uri = uri filename;
            language_id = front filedata.filetypes;
            version = 1;
            text = filedata.contents;
          })
              ∷ [],
        )
        | some file ↦ if file.hash == hash then (opened_files, []) else (
          put filename (record { version = file.version + 1; hash = hash }) opened_files,
          did_change (uri filename) (file.version + 1) filedata.contents ∷ [],
        )
      ]

  unfoldable pub sync_requested : Dict File → Dict FileData → Sent
  unfolding sync_file
  sync_requested opened_files [] = (opened_files, [])
  sync_requested opened_files ((filename, filedata) ∷ file_data) =
      let first = sync_file opened_files filename filedata in
      let rest = sync_requested first.0 file_data in (rest.0, first.1 ++ rest.1)

  unfoldable pub sync_files : Dict File → Dict FileData → Sent
  unfolding sync_requested close_missing
  sync_files opened_files file_data =
      let updated = sync_requested opened_files file_data in
      let closed = close_missing file_data updated.0 in (closed.0, updated.1 ++ closed.1)
