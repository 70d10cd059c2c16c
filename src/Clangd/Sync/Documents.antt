-- ===== src/Clangd/Sync/Documents.antt =====
-- What the notifications make of the documents that the server has, by the protocol's description of
-- document synchronisation. The version and the text stand for a document.
use ycmd_cpp.Base.{
  ℕ, ◌+◌, ◌≡◌, refl, sym, ap, ◌∙◌, false, Option, none, some, List, [], ◌∷◌, ◌++◌, arith, ◌==◌,
  if◌then◌else◌, Bool-cases, Option-cases, inl, inr, Bytes, bytes_eq, Dict, find, put,
}
use ycmd_cpp.Api.{FileData}
use ycmd_cpp.Clangd.Sync.{
  File, uri, Notification, did_open, did_change, did_close, sync_file, sync_requested,
  close_missing, sync_files,
}
use ycmd_cpp.Clangd.Sync.Laws.{IsMap, find-sync_file, find_same}

-- The version and the text under each URI.
abbrev pub Documents : Type 0
Documents = Bytes → Option (ℕ × Bytes)

abbrev pub change : ℕ → Bytes → Option (ℕ × Bytes) → Option (ℕ × Bytes)
change version text none = none
change version text (some old) = some (version, text)

unfoldable pub notify : Notification → Documents → Documents
unfolding bytes_eq
notify (did_open item) docs u =
    if bytes_eq item.uri u then some (item.version, item.text) else docs u
notify (did_change v version text) docs u =
    if bytes_eq v u then change version text (docs u) else docs u
notify (did_close v) docs u = if bytes_eq v u then none else docs u

unfoldable pub notify_all : List Notification → Documents → Documents
unfolding notify
notify_all [] docs = docs
notify_all (n ∷ ns) docs = notify_all ns (notify n docs)

-- A path that starts with a separator, as the paths of an editor do.
abbrev pub IsAbsolute : Bytes → Type 0
IsAbsolute [] = ⊥
IsAbsolute (b ∷ s) = b ≡ b'/'

abbrev pub AllAbsolute : {V : Type 0} → Dict V → Type 0
AllAbsolute [] = Unit
AllAbsolute ((k, v) ∷ m) = IsAbsolute k × AllAbsolute m

bytes_eq-uri : (s t : Bytes) → bytes_eq (uri s) (uri t) ≡ bytes_eq s t
unfolding bytes_eq
bytes_eq-uri s t = refl

IsAbsolute-ne-uri : (k t : Bytes) → IsAbsolute k → bytes_eq k (uri t) ≡ false
unfolding bytes_eq
IsAbsolute-ne-uri [] t h = elim h [ ]
IsAbsolute-ne-uri (b ∷ s) t h = rw h refl

notify_all-append :
    (ms ns : List Notification) (docs : Documents)
    → notify_all (ms ++ ns) docs ≡ notify_all ns (notify_all ms docs)
unfolding notify_all
notify_all-append [] ns docs = refl
notify_all-append (m ∷ ms) ns docs = notify_all-append ms ns (notify m docs)

AllAbsolute-put :
    {V : Type 0} (k : Bytes) (v : V) (m : Dict V)
    → IsAbsolute k
    → AllAbsolute m
    → AllAbsolute (put k v m)
unfolding put
AllAbsolute-put k v [] h all = (h, tt)
AllAbsolute-put k v ((j, w) ∷ m) h (a, all) = elim (Bool-cases (bytes_eq j k)) [
  | inl hit ↦ rw hit (h, all)
  | inr miss ↦ rw miss (a, AllAbsolute-put k v m h all)
]

-- Closing names a path, not its URI: the documents stay.
notify_all-close_missing :
    (file_data : Dict FileData) (opened : Dict File) (docs : Documents) (name : Bytes)
    → AllAbsolute opened
    → notify_all (close_missing file_data opened).1 docs (uri name) ≡ docs (uri name)
unfolding close_missing notify_all notify
notify_all-close_missing file_data [] docs name all = refl
notify_all-close_missing file_data ((k, f) ∷ opened) docs name (a, all) =
    elim (Option-cases (find k file_data)) [
      | inl e ↦
          rw (close_missing, e, notify_all)
            (notify_all-close_missing file_data opened (notify (did_close k) docs) name all
              ∙ rw (IsAbsolute-ne-uri k name a) refl)
      | inr (d, e) ↦ rw (close_missing, e) (notify_all-close_missing file_data opened docs name all)
    ]

module _ (xxh64 : Bytes → ℕ) where
  -- The document of a file after it stood in a request, from its entry, the file and the document
  -- before.
  unfoldable pub document : Option File → Option FileData → Option (ℕ × Bytes) → Option (ℕ × Bytes)
  document old none before = before
  document none (some d) before = some (1, d.contents)
  document (some f) (some d) before =
      if f.hash == xxh64 d.contents then before else change (f.version + 1) d.contents before

  notify_all-sync_file :
      (opened : Dict File) (k : Bytes) (d : FileData) (docs : Documents) (name : Bytes)
      → notify_all (sync_file xxh64 opened k d).1 docs (uri name) ≡ (
          if bytes_eq k name
          then document (find name opened) (some d) (docs (uri name))
          else docs (uri name))
  unfolding notify_all notify document sync_file
  notify_all-sync_file opened k d docs name =
      let same = find_same opened k name in
      elim (Option-cases (find k opened)) [
        | inl e ↦ ground (arith, same, bytes_eq-uri k name)
        | inr (f, e) ↦ ground (arith, same, bytes_eq-uri k name)
      ]

  AllAbsolute-sync_file :
      (opened : Dict File) (k : Bytes) (d : FileData)
      → IsAbsolute k
      → AllAbsolute opened
      → AllAbsolute (sync_file xxh64 opened k d).0
  unfolding sync_file
  AllAbsolute-sync_file opened k d a all = elim (Option-cases (find k opened)) [
    | inl e ↦ rw (sync_file, e) (AllAbsolute-put k _ opened a all)
    | inr (f, e) ↦ elim (Bool-cases (f.hash == xxh64 d.contents)) [
      | inl same ↦ rw (sync_file, e, same) all
      | inr differ ↦ rw (sync_file, e, differ) (AllAbsolute-put k _ opened a all)
    ]
  ]

  pub AllAbsolute-sync_requested :
      (opened : Dict File) (file_data : Dict FileData)
      → AllAbsolute file_data
      → AllAbsolute opened
      → AllAbsolute (sync_requested xxh64 opened file_data).0
  unfolding sync_requested
  AllAbsolute-sync_requested opened [] named all = all
  AllAbsolute-sync_requested opened ((k, d) ∷ rest) (a, named) all =
      AllAbsolute-sync_requested (sync_file xxh64 opened k d).0 rest named
        (AllAbsolute-sync_file opened k d a all)

  notify_all-sync_requested :
      (opened : Dict File) (file_data : Dict FileData) (docs : Documents) (name : Bytes)
      → IsMap file_data
      → notify_all (sync_requested xxh64 opened file_data).1 docs (uri name)
        ≡ document (find name opened) (find name file_data) (docs (uri name))
  unfolding sync_requested notify_all document find
  notify_all-sync_requested opened [] docs name v = refl
  notify_all-sync_requested opened ((k, d) ∷ rest) docs name (fresh, v) =
      let first = sync_file xxh64 opened k d in
      let split =
        ap (λ s. s (uri name))
          (notify_all-append first.1 (sync_requested xxh64 first.0 rest).1 docs) in
      let later = notify_all-sync_requested first.0 rest (notify_all first.1 docs) name v in
      let now = notify_all-sync_file opened k d docs name in
      split ∙ later ∙ elim (Bool-cases (bytes_eq k name)) [
        | inl hit ↦ rw (hit, now, sym (find_same rest k name hit), fresh, hit) refl
        | inr miss ↦ rw (miss, now, find-sync_file xxh64 opened k d name, miss) refl
      ]

  -- What a synchronisation makes of the document of a file, from the entry of the file in the list,
  -- the file in the request and the document before. All paths are absolute.
  pub notify_all-sync_files :
      (opened : Dict File) (file_data : Dict FileData) (docs : Documents) (name : Bytes)
      → IsMap file_data
      → AllAbsolute file_data
      → AllAbsolute opened
      → notify_all (sync_files xxh64 opened file_data).1 docs (uri name)
        ≡ document (find name opened) (find name file_data) (docs (uri name))
  unfolding sync_files
  notify_all-sync_files opened file_data docs name v named all =
      let requested = sync_requested xxh64 opened file_data in
      let closed = close_missing file_data requested.0 in
      ap (λ s. s (uri name)) (notify_all-append requested.1 closed.1 docs)
      ∙ notify_all-close_missing file_data requested.0 (notify_all requested.1 docs) name
          (AllAbsolute-sync_requested opened file_data named all)
      ∙ notify_all-sync_requested opened file_data docs name v
