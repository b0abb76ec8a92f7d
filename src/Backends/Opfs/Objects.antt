-- ===== src/Backends/Opfs/Objects.antt =====
-- `OPFSFile`, `OPFSDirectory` and `OPFSBackend` of wasmfs/backends/opfs_backend.cpp.
use emscripten_memfswasm_wra.Base.{
  ℕ, ◌+◌, ◌%◌, ◌^◌, Option, none, some, List, ◌==◌, if◌then◌else◌, length,
}
use emscripten_memfswasm_wra.Base.Names.{Name}
use emscripten_memfswasm_wra.Posix.{eio, ebusy}
use emscripten_memfswasm_wra.Memory.DataFile.{Bytes}
use emscripten_memfswasm_wra.Store.{Entry}
use emscripten_memfswasm_wra.Backends.Embedder.{
  ok, negative, returned, unreachable, Act, pure, refuse, never, check, ◌>>=◌, ◌>>◌,
}
use emscripten_memfswasm_wra.Backends.Opfs.{
  OpfsHost, none_kind, access_kind, blob_kind, OpenState, ask,
}

-- `getAccessID` and `getBlobID`. Without the assertions, they return whatever is there, and the
-- callers have looked at the kind.
abbrev pub with_id : {A : Type 0} → (ℕ → Act OpenState A) → Act OpenState A
with_id f st = elim st.id [ ok h ↦ f h st | negative e ↦ unreachable ]

-- A file or directory object is its identity in the library.
pub data OpfsChild : Type 0 where
  opfs_file opfs_directory : ℕ → OpfsChild

-- An offset is handed over in 32 bits.
abbrev pub as_pos : ℕ → ℕ
as_pos offset = offset % 2 ^ 32

abbrev pub call : {A : Type 0} → (ℕ → A) → Act ℕ A
call f k = returned (f k) (k + 1)

module _ (host : OpfsHost) where
  -- `OPFSFile`
  unfoldable pub get_size : ℕ → Act OpenState ℕ
  get_size file st = elim st.kind [
    | none_kind ↦ ask (λ k. host.get_size_file k file) st
    | access_kind ↦ with_id (λ h. ask (λ k. host.get_size_access k h)) st
    | blob_kind ↦ with_id (λ h. ask (λ k. host.get_size_blob k h)) st
  ]

  unfoldable pub set_size : ℕ → ℕ → Act OpenState (Unit {0})
  set_size file size st = elim st.kind [
    | access_kind ↦ with_id (λ h. do err ← ask (λ k. host.set_size_access k h size); check err) st
    | blob_kind ↦ refuse eio st
    | none_kind ↦ (do err ← ask (λ k. host.set_size_file k file size); check err) st
  ]

  unfoldable pub read : ℕ → ℕ → Act OpenState Bytes
  read len offset st = elim st.kind [
    | access_kind ↦
        with_id (λ h. do r ← ask (λ k. host.read_access k h len (as_pos offset)); check r) st
    | blob_kind ↦
        with_id (λ h. do r ← ask (λ k. host.read_blob k h len (as_pos offset)); check r) st
    | none_kind ↦ unreachable
  ]

  -- The kind is only asserted.
  unfoldable pub write : Bytes → ℕ → Act OpenState ℕ
  write buf offset =
      with_id (λ h. do r ← ask (λ k. host.write_access k h buf (as_pos offset)); check r)

  unfoldable pub flush : Act OpenState (Unit {0})
  flush st = elim st.kind [
    | access_kind ↦ with_id (λ h. do err ← ask (λ k. host.flush_access k h); check err) st
    | blob_kind ↦ returned tt st
    | none_kind ↦ returned tt st
  ]

  -- `OPFSDirectory`, on the number of the next call.
  unfoldable pub get_child : ℕ → Name → Act ℕ (Option OpfsChild)
  get_child dir name = do
    (child_type, child_id) ← call (λ k. host.get_child k dir name)
    elim child_id [
      | negative e ↦ pure none
      | ok id ↦
          if child_type == 1
          then pure (some (opfs_file id))
          else if child_type == 2
          then pure (some (opfs_directory id))
          else never
    ]

  unfoldable pub insert_data_file : ℕ → Name → Act ℕ (Option OpfsChild)
  insert_data_file dir name = do
    child_id ← call (λ k. host.insert_file k dir name)
    elim child_id [ negative e ↦ pure none | ok id ↦ pure (some (opfs_file id)) ]

  unfoldable pub insert_directory : ℕ → Name → Act ℕ (Option OpfsChild)
  insert_directory dir name = do
    child_id ← call (λ k. host.insert_directory k dir name)
    elim child_id [ negative e ↦ pure none | ok id ↦ pure (some (opfs_directory id)) ]

  -- Symlinks are not supported.
  unfoldable pub insert_symlink : ℕ → Name → Name → Act ℕ (Option OpfsChild)
  insert_symlink dir name target = pure none

  unfoldable pub insert_move : ℕ → Name → OpfsChild → Act ℕ (Unit {0})
  insert_move dir name (opfs_file file) = do
    err ← call (λ k. host.move_file k file dir name)
    check err
  insert_move dir name (opfs_directory d) = refuse ebusy

  unfoldable pub remove_child : ℕ → Name → Act ℕ (Unit {0})
  remove_child dir name = do err ← call (λ k. host.remove_child k dir name); check err

  unfoldable pub get_entries : ℕ → Act ℕ (List Entry)
  get_entries dir = do entries ← call (λ k. host.get_entries k dir); check entries

  unfoldable pub get_num_entries : ℕ → Act ℕ ℕ
  get_num_entries dir = do entries ← get_entries dir; pure (length entries)

-- `OPFSBackend`: no file without a directory, and the root directory under its identity.
unfoldable pub create_file : ℕ → Act ℕ (Option OpfsChild)
create_file mode = pure none

unfoldable pub create_directory : ℕ → Act ℕ (Option OpfsChild)
create_directory mode = do call (λ k. k); pure (some (opfs_directory 1))

unfoldable pub create_symlink : Name → Act ℕ (Option OpfsChild)
create_symlink target = pure none
