-- ===== src/Backends/Node/Objects.antt =====
-- `NodeFile`, `NodeDirectory` and `NodeBackend` of wasmfs/backends/node_backend.cpp.
use emscripten_memfswasm_wra.Base.{
  ℕ, ◌+◌, ◌%◌, ◌^◌, Option, none, some, List, ◌++◌, ◌==◌, if◌then◌else◌, length, ltb, bit_and,
}
use emscripten_memfswasm_wra.Base.Names.{Name, codes}
use emscripten_memfswasm_wra.Posix.{eisdir, s_ifmt, s_ifdir, s_ifreg}
use emscripten_memfswasm_wra.Memory.DataFile.{Bytes}
use emscripten_memfswasm_wra.Store.{Entry}
use emscripten_memfswasm_wra.Backends.Embedder.{
  ok, negative, returned, unreachable, Act, pure, refuse, never, check, ◌>>=◌,
}
use emscripten_memfswasm_wra.Backends.Node.{NodeHost, NodeState, ask}

-- A file or directory object: its mode and its path.
pub data NodeChild : Type 0 where
  node_file node_directory : ℕ → Name → NodeChild

-- `getFD`, where the assertion on the count is left out.
abbrev pub with_fd : {A : Type 0} → (ℕ → Act NodeState A) → Act NodeState A
with_fd f st = elim st.fd [ ok h ↦ f h st | negative e ↦ unreachable ]

abbrev pub or_zero : Option ℕ → ℕ
or_zero none = 0
or_zero (some n) = n

-- A positive error, or 0.
abbrev pub check_errno : {S : Type 0} → ℕ → Act S (Unit {0})
check_errno err = if err == 0 then pure tt else refuse err

abbrev pub call : {A : Type 0} → (ℕ → A) → Act ℕ A
call f k = returned (f k) (k + 1)

module _ (host : NodeHost) where
  -- An error is reported as an empty file.
  unfoldable pub get_size : Act NodeState ℕ
  get_size st =
      if ltb 0 st.open_count
      then with_fd (λ h. do size ← ask (λ k. host.fstat_size k h); pure (or_zero size)) st
      else (do size ← ask (λ k. host.stat_size k st.path); pure (or_zero size)) st

  unfoldable pub set_size : ℕ → Act NodeState (Unit {0})
  set_size size = never

  -- An offset is handed over in 32 bits.
  unfoldable pub read : ℕ → ℕ → Act NodeState Bytes
  read len offset =
      with_fd (λ h. do bytes ← ask (λ k. host.read k h len (offset % 2 ^ 32)); check bytes)

  unfoldable pub write : Bytes → ℕ → Act NodeState ℕ
  write buf offset = with_fd (λ h. do n ← ask (λ k. host.write k h buf (offset % 2 ^ 32)); check n)

  unfoldable pub flush : Act NodeState (Unit {0})
  flush = never

  unfoldable pub get_child_path : Name → Name → Name
  get_child_path path name = path ++ codes "/" ++ name

  -- `NodeDirectory` of a path, on the number of the next call.
  unfoldable pub get_child : Name → Name → Act ℕ (Option NodeChild)
  get_child path name = do
    mode ← call (λ k. host.get_mode k (get_child_path path name))
    elim mode [
      | none ↦ pure none
      | some m ↦
          if bit_and m s_ifmt == s_ifreg
          then pure (some (node_file m (get_child_path path name)))
          else if bit_and m s_ifmt == s_ifdir
          then pure (some (node_directory m (get_child_path path name)))
          else pure none
    ]

  -- `unlink` first, and `rmdir` if that says that it is a directory.
  unfoldable pub remove_child : Name → Name → Act ℕ (Unit {0})
  remove_child path name = do
    err ← call (λ k. host.unlink k (get_child_path path name))
    if err == 0
        then pure tt
        else if err == eisdir
        then (do err' ← call (λ k. host.rmdir k (get_child_path path name)); check_errno err')
        else refuse err

  unfoldable pub insert_data_file : Name → Name → ℕ → Act ℕ (Option NodeChild)
  insert_data_file path name mode = do
    err ← call (λ k. host.insert_file k (get_child_path path name) mode)
    if err == 0 then pure (some (node_file mode (get_child_path path name))) else pure none

  unfoldable pub insert_directory : Name → Name → ℕ → Act ℕ (Option NodeChild)
  insert_directory path name mode = do
    err ← call (λ k. host.insert_directory k (get_child_path path name) mode)
    if err == 0 then pure (some (node_directory mode (get_child_path path name))) else pure none

  -- Symlinks and moves abort.
  unfoldable pub insert_symlink : Name → Name → Name → Act ℕ (Option NodeChild)
  insert_symlink path name target = never

  unfoldable pub insert_move : Name → Name → NodeChild → Act ℕ (Unit {0})
  insert_move path name file = never

  unfoldable pub get_entries : Name → Act ℕ (List Entry)
  get_entries path = do entries ← call (λ k. host.readdir k path); check entries

  unfoldable pub get_num_entries : Name → Act ℕ ℕ
  get_num_entries path = do entries ← get_entries path; pure (length entries)

-- `NodeBackend` at its mount path
unfoldable pub create_file : Name → ℕ → Act ℕ NodeChild
create_file mount_path mode = pure (node_file mode mount_path)

unfoldable pub create_directory : Name → ℕ → Act ℕ NodeChild
create_directory mount_path mode = pure (node_directory mode mount_path)

unfoldable pub create_symlink : Name → Name → Act ℕ NodeChild
create_symlink mount_path target = never
