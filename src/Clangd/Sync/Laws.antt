-- ===== src/Clangd/Sync/Laws.antt =====
-- Which files are open after a synchronisation, and under which version.
use ycmd_cpp.Base.{
  ℕ, ◌+◌, ◌≡◌, refl, sym, ap, true, Option, none, some, [], ◌∷◌, arith, ◌==◌, if◌then◌else◌,
  Bool-cases, Option-cases, inl, inr, Bytes, bytes_eq, bytes_eq_iff, Dict, find, find-put,
}
use ycmd_cpp.Api.{FileData}
use ycmd_cpp.Clangd.Sync.{File, sync_file, sync_requested, close_missing, sync_files}

-- Every key stands once, as in a map.
abbrev pub IsMap : Dict FileData → Type 0
IsMap [] = Unit
IsMap ((k, v) ∷ m) = (find k m ≡ none) × IsMap m

pub find_same :
    {V : Type 0} (m : Dict V) (k name : Bytes) → bytes_eq k name ≡ true → find k m ≡ find name m
find_same m k name h = ap (λ n. find n m) ((bytes_eq_iff k name).0 h)

pub find-close_missing :
    (file_data : Dict FileData) (opened : Dict File) (name : Bytes)
    → find name (close_missing file_data opened).0
      ≡ (elim (find name file_data) [ none ↦ none | some d ↦ find name opened ])
unfolding close_missing find
find-close_missing file_data [] name = ground arith
find-close_missing file_data ((k, f) ∷ opened) name =
    ground (arith, bytes_eq_iff k name, find-close_missing file_data opened name)

module _ (xxh64 : Bytes → ℕ) where
  -- The entry of a name after the loop over the request, from its old entry and its file there.
  unfoldable pub updated : Option File → Option FileData → Option File
  updated old none = old
  updated none (some d) = some (record { version = 1; hash = xxh64 d.contents })
  updated (some f) (some d) =
      if f.hash == xxh64 d.contents
      then some f
      else some (record { version = f.version + 1; hash = xxh64 d.contents })

  -- The entry after the whole synchronisation.
  unfoldable pub synced : Option File → Option FileData → Option File
  unfolding updated
  synced old none = none
  synced old (some d) = updated old (some d)

  pub find-sync_file :
      (opened : Dict File) (k : Bytes) (d : FileData) (name : Bytes)
      → find name (sync_file xxh64 opened k d).0
        ≡ (if bytes_eq k name then updated (find name opened) (some d) else find name opened)
  unfolding sync_file updated
  find-sync_file opened k d name =
      let same = find_same opened k name in
      let fresh = find-put k name (record { version = 1; hash = xxh64 d.contents }) opened in
      elim (Option-cases (find k opened)) [
        | inl e ↦ ground (arith, same, fresh)
        | inr (f, e) ↦ ground (
          arith,
          same,
          find-put k name (record { version = f.version + 1; hash = xxh64 d.contents }) opened,
        )
      ]

  pub find-sync_requested :
      (opened : Dict File) (file_data : Dict FileData) (name : Bytes)
      → IsMap file_data
      → find name (sync_requested xxh64 opened file_data).0
        ≡ updated (find name opened) (find name file_data)
  unfolding sync_requested find updated
  find-sync_requested opened [] name v = refl
  find-sync_requested opened ((k, d) ∷ rest) name (fresh, v) = elim (Bool-cases (bytes_eq k name)) [
    | inl hit ↦
        rw
          (
            hit,
            find-sync_requested (sync_file xxh64 opened k d).0 rest name v,
            find-sync_file opened k d name,
            sym (find_same rest k name hit),
            fresh,
            hit,
          )
          refl
    | inr miss ↦
        rw
          (
            miss,
            find-sync_requested (sync_file xxh64 opened k d).0 rest name v,
            find-sync_file opened k d name,
            miss,
          )
          refl
  ]

  -- After a synchronisation the files of the request are open and no others: a file that was not
  -- open has version 1, one whose hash is as before has its old version, any other one the next.
  pub find-sync_files :
      (opened : Dict File) (file_data : Dict FileData) (name : Bytes)
      → IsMap file_data
      → find name (sync_files xxh64 opened file_data).0
        ≡ synced (find name opened) (find name file_data)
  unfolding sync_files synced
  find-sync_files opened file_data name v =
      let requested = find-sync_requested opened file_data name v in
      let closed = find-close_missing file_data (sync_requested xxh64 opened file_data).0 name in
      elim (Option-cases (find name file_data)) [
        | inl e ↦ ground (arith, closed)
        | inr (d, e) ↦ ground (arith, closed, requested)
      ]
