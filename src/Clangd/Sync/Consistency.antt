-- ===== src/Clangd/Sync/Consistency.antt =====
-- The list of open files against the documents that the server has.
use mathlib.Core.Option.{some-injective, none-ne-some}
use ycmd_cpp.Base.{
  ℕ, ◌+◌, ◌≡◌, refl, sym, ◌∙◌, true, false, Option, none, some, ◌==◌, Option-cases, [], ◌∷◌,
  Bool-cases, inl, inr, Bytes, Dict, find,
}
use ycmd_cpp.Api.{FileData}
use ycmd_cpp.Clangd.Sync.{File, uri, sync_files, sync_requested, close_missing}
use ycmd_cpp.Clangd.Sync.Laws.{IsMap, updated, synced, find-sync_files}
use ycmd_cpp.Clangd.Sync.Documents.{
  Documents, AllAbsolute, notify_all, document, notify_all-sync_files, AllAbsolute-sync_requested,
}

module _ (xxh64 : Bytes → ℕ) where
  -- A document with the listed version, whose text has the listed hash.
  abbrev pub Agrees : File → Option (ℕ × Bytes) → Type 0
  Agrees f doc = (text : Bytes) × (doc ≡ some (f.version, text)) × (xxh64 text ≡ f.hash)

  -- Every listed file has such a document.
  abbrev pub IsConsistent : Dict File → Documents → Type 0
  IsConsistent opened docs =
      (name : Bytes) (f : File) → find name opened ≡ some f → Agrees f (docs (uri name))

  same_entry :
      (g f : File) (d : FileData)
      → (g.hash == xxh64 d.contents) ≡ true
      → synced xxh64 (some g) (some d) ≡ some f
      → g ≡ f
  unfolding synced updated
  same_entry g f d hit e =
      let p : synced xxh64 (some g) (some d) ≡ some g = rw (synced, hit) refl in
      some-injective g f (sym p ∙ e)

  next_entry :
      (g f : File) (d : FileData)
      → (g.hash == xxh64 d.contents) ≡ false
      → synced xxh64 (some g) (some d) ≡ some f
      → (record { version = g.version + 1; hash = xxh64 d.contents }) ≡ f
  unfolding synced updated
  next_entry g f d miss e =
      let h : File = record { version = g.version + 1; hash = xxh64 d.contents } in
      let p : synced xxh64 (some g) (some d) ≡ some h = rw (synced, miss) refl in
      some-injective h f (sym p ∙ e)

  document-Agrees :
      (old : Option File) (request : Option FileData) (before : Option (ℕ × Bytes)) (f : File)
      → ((g : File) → old ≡ some g → Agrees g before)
      → synced xxh64 old request ≡ some f
      → Agrees f (document xxh64 old request before)
  unfolding document synced updated
  document-Agrees old none before f agree e = elim (none-ne-some f e) [ ]
  document-Agrees none (some d) before f agree e =
      rw (sym (some-injective (record { version = 1; hash = xxh64 d.contents }) f e))
        (d.contents, refl, refl)
  document-Agrees (some g) (some d) before f agree e =
      let (text, has, same) = agree g refl in
      elim (Bool-cases (g.hash == xxh64 d.contents)) [
        | inl hit ↦ rw (hit, sym (same_entry g f d hit e)) (text, has, same)
        | inr miss ↦ rw (miss, has, sym (next_entry g f d miss e)) (d.contents, refl, refl)
      ]

  -- A synchronisation keeps the list of open files consistent with the documents of the server.
  pub sync_files-IsConsistent :
      (opened : Dict File) (file_data : Dict FileData) (docs : Documents)
      → IsMap file_data
      → AllAbsolute file_data
      → AllAbsolute opened
      → IsConsistent opened docs
      → IsConsistent
          (sync_files xxh64 opened file_data).0
          (notify_all (sync_files xxh64 opened file_data).1 docs)
  sync_files-IsConsistent opened file_data docs v named all agree name f e =
      rw (notify_all-sync_files xxh64 opened file_data docs name v named all) (
        document-Agrees (find name opened) (find name file_data) (docs (uri name)) f (agree name)
          (sym (find-sync_files xxh64 opened file_data name v) ∙ e))

  pub nil-IsConsistent : (docs : Documents) → IsConsistent [] docs
  unfolding find
  nil-IsConsistent docs name f e = absurd (none-ne-some f e)

  AllAbsolute-close_missing :
      (file_data : Dict FileData) (opened : Dict File)
      → AllAbsolute opened
      → AllAbsolute (close_missing file_data opened).0
  unfolding close_missing
  AllAbsolute-close_missing file_data [] all = tt
  AllAbsolute-close_missing file_data ((k, f) ∷ opened) (a, all) =
      let rest = AllAbsolute-close_missing file_data opened all in
      elim (Option-cases (find k file_data)) [
        | inl e ↦ rw (close_missing, e) rest
        | inr (d, e) ↦ rw (close_missing, e) (a, rest)
      ]

  pub AllAbsolute-sync_files :
      (opened : Dict File) (file_data : Dict FileData)
      → AllAbsolute file_data
      → AllAbsolute opened
      → AllAbsolute (sync_files xxh64 opened file_data).0
  unfolding sync_files
  AllAbsolute-sync_files opened file_data named all =
      AllAbsolute-close_missing file_data (sync_requested xxh64 opened file_data).0
        (AllAbsolute-sync_requested xxh64 opened file_data named all)
