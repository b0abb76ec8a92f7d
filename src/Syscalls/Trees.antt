-- ===== src/Syscalls/Trees.antt =====
-- Changes of the directory tree: `unlinkat`, `wasmfs_unmount`, `renameat`, `symlinkat` and
-- `readlinkat` of wasmfs/syscalls.cpp.
pub mod Dot
pub mod Rename
pub mod Unlink
use emscripten_memfswasm_wra.Base.{
  ℕ, zero, suc, ◌+◌, ◌-◌, Bool, true, false, not, ◌&&◌, ◌||◌, Option, none, some, [], ◌∷◌, length,
  take, ltb, ◌==◌, if◌then◌else◌,
}
use emscripten_memfswasm_wra.Base.Names.{Name}
use emscripten_memfswasm_wra.Posix.{
  eacces, ebusy, eexist, einval, eisdir, enametoolong, enoent, enotdir, enotempty, eperm, exdev,
  at_fdcwd, at_removedir, has,
}
use emscripten_memfswasm_wra.Store.{
  FileId, data_file, directory, symlink, is_directory, M, out_of_fuel, pure, throw, crash, throw_if,
  gets, ◌>>=◌, ◌>>◌, load, get_parent, get_mode, get_backend,
}
use emscripten_memfswasm_wra.Directory
use emscripten_memfswasm_wra.Directory.{get_num_entries, insert_move, insert_symlink, remove_child}
use emscripten_memfswasm_wra.Paths.{slash, strip_trailing, parse_parent, parse_file}
use emscripten_memfswasm_wra.Syscalls.Open.{name_max, or_throw, perm_write}

-- `p.size() >= 2 && p.substr(p.size() - 2) == "/."`
unfoldable pub ends_slash_dot : Name → Bool
ends_slash_dot [] = false
ends_slash_dot (c ∷ []) = false
ends_slash_dot (c ∷ d ∷ []) = c == slash && d == b'.'
ends_slash_dot (c ∷ d ∷ e ∷ rest) = ends_slash_dot (d ∷ e ∷ rest)

-- `__syscall_unlinkat`: what may be removed, by its kind and the flag.
unfoldable pub check_removable : FileId → ℕ → M (Unit {0})
check_removable file flags = do
  n ← load file
  if is_directory n.body
      then (do
        throw_if (not (flags == at_removedir)) eisdir
        entries ← get_num_entries file
        throw_if (ltb 0 entries) enotempty)
      else throw_if (flags == at_removedir) enotdir

-- `__syscall_unlinkat`
unfoldable pub unlinkat : ℕ → Name → ℕ → M (Unit {0})
unlinkat dirfd path flags = do
  throw_if (has flags (0xffffffff - at_removedir)) einval
  throw_if (flags == at_removedir && ends_slash_dot (strip_trailing path)) einval
  (parent, name) ← parse_parent path dirfd
  found ← Directory.get_child parent name
  file ← or_throw found enoent
  root ← gets (λ s. s.root)
  throw_if (file == root) ebusy
  check_removable file flags
  mode ← get_mode parent
  throw_if (not (has mode perm_write)) eacces
  remove_child parent name

-- `__syscall_rmdir`
unfoldable pub rmdir : Name → M (Unit {0})
rmdir path = unlinkat at_fdcwd path at_removedir

-- `wasmfs_unmount`
unfoldable pub unmount : Name → M (Unit {0})
unmount path = do
  (parent, name) ← parse_parent path at_fdcwd
  found ← Directory.get_child parent name
  file ← or_throw found enoent
  root ← gets (λ s. s.root)
  throw_if (file == root) ebusy
  n ← load file
  throw_if (not (is_directory n.body)) enotdir
  own ← get_backend parent
  throw_if (own == n.backend) einval
  remove_child parent name

-- `__syscall_renameat`: the loop that looks for the moved file among the new parent and what lies
-- above it. A directory without a parent that is not the root is a null pointer in the next round.
unfoldable pub check_ancestors : ℕ → FileId → FileId → FileId → M (Unit {0})
check_ancestors zero root old_file curr = λ _. out_of_fuel
check_ancestors (suc fuel) root old_file curr = elim (curr == root) [
  | true ↦ pure tt
  | false ↦ elim (curr == old_file) [
    | true ↦ throw einval
    | false ↦ do
      parent ← get_parent curr
      elim parent [ none ↦ crash | some p ↦ check_ancestors fuel root old_file p ]
  ]
]

-- `__syscall_renameat`: what may be overwritten.
unfoldable pub check_overwrite : FileId → Option FileId → M (Unit {0})
check_overwrite old_file none = pure tt
check_overwrite old_file (some new_file) = do
  new ← load new_file
  old ← load old_file
  if is_directory new.body
      then (do
        throw_if (not (is_directory old.body)) eisdir
        entries ← get_num_entries new_file
        throw_if (ltb 0 entries) enotempty)
      else throw_if (is_directory old.body) enotdir

abbrev pub is_file : FileId → Option FileId → Bool
is_file f none = false
is_file f (some g) = f == g

-- `__syscall_renameat` once the files are known. The fuel of the search is the number of all files.
unfoldable pub rename_checked : FileId → FileId → Option FileId → FileId → Name → M (Unit {0})
rename_checked old_parent old_file new_file new_parent new_name = do
  root ← gets (λ s. s.root)
  throw_if (old_file == root || is_file root new_file) ebusy
  old_mode ← get_mode old_parent
  new_mode ← get_mode new_parent
  throw_if (not (has old_mode perm_write) || not (has new_mode perm_write)) eacces
  old_backend ← get_backend old_parent
  new_backend ← get_backend new_parent
  throw_if (not (old_backend == new_backend)) exdev
  fuel ← gets (λ s. s.next_file + 1)
  check_ancestors fuel root old_file new_parent
  check_overwrite old_file new_file
  insert_move new_parent new_name old_file

-- `__syscall_renameat`
unfoldable pub renameat : ℕ → Name → ℕ → Name → M (Unit {0})
renameat olddirfd oldpath newdirfd newpath = do
  (old_parent, old_name) ← parse_parent oldpath olddirfd
  (new_parent, new_name) ← parse_parent newpath newdirfd
  throw_if (ltb name_max (length new_name)) enametoolong
  old_found ← Directory.get_child old_parent old_name
  new_found ← Directory.get_child new_parent new_name
  old_file ← or_throw old_found enoent
  if is_file old_file new_found
      then pure tt
      else rename_checked old_parent old_file new_found new_parent new_name

-- `__syscall_symlinkat`
unfoldable pub symlinkat : Name → ℕ → Name → M (Unit {0})
symlinkat target newdirfd linkpath = do
  (parent, name) ← parse_parent linkpath newdirfd
  throw_if (ltb name_max (length name)) enametoolong
  found ← Directory.get_child parent name
  elim found [ none ↦ pure tt | some _ ↦ throw eexist ]
  inserted ← insert_symlink parent name target
  or_throw inserted eperm
  pure tt

-- `__syscall_readlinkat`: the bytes that are copied out.
unfoldable pub readlinkat : ℕ → Name → ℕ → M Name
readlinkat dirfd path bufsize = do
  file ← parse_file path dirfd false
  n ← load file
  elim n.body [
    | data_file _ ↦ throw einval
    | directory _ ↦ throw einval
    | symlink target ↦ pure (take bufsize target)
  ]
