-- ===== src/Syscalls/Open.antt =====
-- Opening and creating: `doOpen` and `doMkdir` of wasmfs/syscalls.cpp with the calls built on them.
--
-- A path is parsed before `doOpen` is entered, and a parse error is looked at after the access mode,
-- so the parse comes in as a result. A backend is a number, and 0 is `NullBackend`.
pub mod Mkdir
pub mod Reading
pub mod Create
pub mod Granted
use emscripten_memfswasm_wra.Base.{
  ℕ, not, ◌&&◌, ◌||◌, Option, none, some, length, ltb, ◌==◌, if◌then◌else◌, bit_and, bit_or,
}
use emscripten_memfswasm_wra.Base.Names.{Name}
use emscripten_memfswasm_wra.Posix.{
  eacces, eexist, einval, eio, eisdir, eloop, enametoolong, enoent, enotdir, eperm, o_accmode,
  o_creat, o_directory, o_excl, o_nofollow, o_rdonly, o_rdwr, o_trunc, o_wronly, s_iallugo, s_ifdir,
  s_ififo, s_irwxugo, s_isvtx, at_fdcwd, has,
}
use emscripten_memfswasm_wra.Store.{
  FileId, data_file, directory, symlink, is_directory, is_data_file, M, Result, value, error, pure,
  throw, throw_if, attempt, ◌>>=◌, ◌>>◌, load, get_parent, get_mode, get_backend,
}
use emscripten_memfswasm_wra.Files.{create_file, create_directory, set_size}
use emscripten_memfswasm_wra.Directory
use emscripten_memfswasm_wra.Directory.{insert_data_file, insert_directory, mount_child}
use emscripten_memfswasm_wra.Table.{create_open, add_entry}
use emscripten_memfswasm_wra.Paths.{parse_parent, get_file_from}

-- `WASMFS_PERM_READ`, `WASMFS_PERM_WRITE`, `WASMFS_PERM_EXECUTE` and `WASMFS_NAME_MAX`
abbrev pub perm_read : ℕ
perm_read = 0o444

abbrev pub perm_write : ℕ
perm_write = 0o222

abbrev pub perm_execute : ℕ
perm_execute = 0o111

abbrev pub name_max : ℕ
name_max = 255

abbrev pub null_backend : ℕ
null_backend = 0

-- `OpenReturnMode`
pub data OpenReturnMode : Type 0 where
  fd nothing : OpenReturnMode

abbrev pub Parsed : Type 0
Parsed = Result (FileId × Name)

-- `if (auto err = parsed.getError()) return err;`
abbrev pub unwrap : {A : Type 0} → Result A → M A
unwrap (value a) = pure a
unwrap (error e) = throw e

abbrev pub or_throw : {A : Type 0} → Option A → ℕ → M A
or_throw none e = throw e
or_throw (some a) e = pure a

-- The file or directory for a new child: the parent's own backend inserts it, and another one
-- creates it to be mounted.
unfoldable pub make_child :
    (insert : M (Option FileId)) (create : ℕ → M FileId) → FileId → Name → ℕ → M FileId
make_child insert create parent name backend = do
  own ← get_backend parent
  let chosen = if backend == null_backend then own else backend
  if chosen == own
      then (do inserted ← insert; or_throw inserted eio)
      else (do created ← create chosen; mount_child parent name created; pure created)

-- `doOpen` where the name is not there.
unfoldable pub open_new : FileId → Name → ℕ → ℕ → ℕ → OpenReturnMode → M ℕ
open_new parent name flags mode backend return_mode = do
  throw_if (not (has flags o_creat)) enoent
  above ← get_parent parent
  or_throw above enoent
  created ←
      make_child (insert_data_file parent name (bit_and mode s_iallugo))
        (λ b. create_file b (bit_and mode s_iallugo)) parent name backend
  elim return_mode [
    | nothing ↦ pure 0
    | fd ↦ do open_file ← create_open created flags; add_entry open_file
  ]

-- `doOpen`: a link at the end of the path is followed unless `O_NOFOLLOW` is given.
unfoldable pub open_target : FileId → FileId → ℕ → M FileId
open_target parent child flags = do
  n ← load child
  elim n.body [
    | data_file _ ↦ pure child
    | directory _ ↦ pure child
    | symlink target ↦ do throw_if (has flags o_nofollow) eloop; get_file_from parent target
  ]

-- `doOpen`: the permission tests of an access mode.
unfoldable pub check_access : ℕ → ℕ → M (Unit {0})
check_access access mode = do
  throw_if ((access == o_rdonly || access == o_rdwr) && not (has mode perm_read)) eacces
  throw_if ((access == o_wronly || access == o_rdwr) && not (has mode perm_write)) eacces

-- `doOpen`: `O_TRUNC`, whose failure to resize is passed over.
unfoldable pub truncate_opened : FileId → ℕ → M (Unit {0})
truncate_opened child mode = do
  n ← load child
  throw_if (not (is_data_file n.body)) eisdir
  throw_if (not (has mode perm_write)) eacces
  attempt (set_size child 0)
  pure tt

-- `doOpen` where the name is there.
unfoldable pub open_old : FileId → FileId → ℕ → M ℕ
open_old parent found flags = do
  child ← open_target parent found flags
  throw_if (has flags o_excl && has flags o_creat) eexist
  n ← load child
  throw_if (is_directory n.body && not (bit_and flags o_accmode == o_rdonly)) eisdir
  check_access (bit_and flags o_accmode) n.mode
  throw_if (has flags o_directory && not (is_directory n.body)) enotdir
  open_file ← create_open child flags
  if has flags o_trunc then truncate_opened child n.mode else pure tt
  add_entry open_file

-- `doOpen`
unfoldable pub do_open : Parsed → ℕ → ℕ → ℕ → OpenReturnMode → M ℕ
do_open parsed flags mode backend return_mode = do
  let access = bit_and flags o_accmode
  throw_if (not (access == o_wronly || access == o_rdonly || access == o_rdwr)) einval
  (parent, name) ← unwrap parsed
  throw_if (ltb name_max (length name)) enametoolong
  found ← Directory.get_child parent name
  elim found [
    | none ↦ open_new parent name flags mode backend return_mode
    | some child ↦ open_old parent child flags
  ]

-- `__syscall_openat2`, added for `path_open`, and `__syscall_openat`
unfoldable pub openat : ℕ → Name → ℕ → ℕ → M ℕ
openat dirfd path flags mode = do
  parsed ← attempt (parse_parent path dirfd)
  do_open parsed flags mode null_backend fd

-- `__syscall_mknodat`
unfoldable pub mknodat : ℕ → Name → ℕ → M ℕ
mknodat dirfd path mode = do
  throw_if (has mode s_ifdir) einval
  throw_if (has mode s_ififo) eperm
  parsed ← attempt (parse_parent path dirfd)
  do_open parsed (bit_or o_creat o_excl) mode null_backend nothing

-- `wasmfs_create_file`
unfoldable pub create_file_in : Name → ℕ → ℕ → M ℕ
create_file_in path mode backend = do
  parsed ← attempt (parse_parent path at_fdcwd)
  do_open parsed (bit_or o_creat o_excl) mode backend fd

-- `doMkdir`
unfoldable pub do_mkdir : Parsed → ℕ → ℕ → M (Unit {0})
do_mkdir parsed mode backend = do
  (parent, name) ← unwrap parsed
  throw_if (ltb name_max (length name)) enametoolong
  found ← Directory.get_child parent name
  elim found [ none ↦ pure tt | some _ ↦ throw eexist ]
  parent_mode ← get_mode parent
  throw_if (not (has parent_mode perm_write)) eacces
  make_child (insert_directory parent name (bit_and mode (bit_or s_irwxugo s_isvtx)))
      (λ b. create_directory b (bit_and mode (bit_or s_irwxugo s_isvtx))) parent name backend
  pure tt

-- `__syscall_mkdirat` and `wasmfs_create_directory`
unfoldable pub mkdirat : ℕ → Name → ℕ → M (Unit {0})
mkdirat dirfd path mode = do
  parsed ← attempt (parse_parent path dirfd)
  do_mkdir parsed mode null_backend

unfoldable pub create_directory_in : Name → ℕ → ℕ → M (Unit {0})
create_directory_in path mode backend = do
  parsed ← attempt (parse_parent path at_fdcwd)
  do_mkdir parsed mode backend
