-- ===== src/Syscalls/Listing.antt =====
-- Directory listing and the working directory: `getdents64`, `chdir`, `fchdir` and `getcwd` of
-- wasmfs/syscalls.cpp.
pub mod Resume
pub mod Cwd
use emscripten_memfswasm_wra.Base.{
  ℕ, zero, suc, ◌+◌, ◌-◌, ◌/◌, ◌%◌, ◌^◌, Bool, true, false, not, ◌&&◌, none, some, List, [], ◌∷◌,
  ◌++◌, length, drop, leb, ltb, ◌==◌, if◌then◌else◌,
}
use emscripten_memfswasm_wra.Base.Names.{Name, codes}
use emscripten_memfswasm_wra.Posix.{efault, einval, enoent, enotdir, erange, at_fdcwd}
use emscripten_memfswasm_wra.Store.{
  FileId, FileKind, unknown_kind, data_file_kind, directory_kind, symlink_kind, is_directory, Entry,
  M, out_of_fuel, pure, throw, throw_if, gets, modify, ◌>>=◌, ◌>>◌, load, load_open, get_parent,
}
use emscripten_memfswasm_wra.Directory
use emscripten_memfswasm_wra.Paths.{slash, parse_file, get_open}
use emscripten_memfswasm_wra.Syscalls.Io.{set_position}

-- `sizeof(struct dirent)`
abbrev pub dirent_size : ℕ
dirent_size = 280

-- `DT_UNKNOWN`, `DT_REG`, `DT_DIR` and `DT_LNK`
abbrev pub dirent_type : FileKind → ℕ
dirent_type unknown_kind = 0
dirent_type data_file_kind = 8
dirent_type directory_kind = 4
dirent_type symlink_kind = 10

-- `struct dirent`
pub record Dirent : Type 0 where
  pub ino : ℕ
  pub off : ℕ
  pub reclen : ℕ
  pub kind : ℕ
  pub name : Name

-- The loop of `__syscall_getdents64` over the entries from the index on: the records that fit, the
-- index after them, and the bytes used.
unfoldable pub fill : ℕ → ℕ → ℕ → List Entry → List Dirent × ℕ × ℕ
fill count index used [] = ([], index, used)
fill count index used (e ∷ es) =
    let rest = fill count (index + 1) (used + dirent_size) es in
    if leb (used + dirent_size) count
    then (
      record {
        ino = e.ino;
        off = index + 1;
        reclen = dirent_size;
        kind = dirent_type e.kind;
        name = e.name;
      }
          ∷ rest.0,
      rest.1,
      rest.2,
    )
    else ([], index, used)

-- An `int` as an `off_t`.
abbrev pub int_to_off_t : ℕ → ℕ
int_to_off_t n = if ltb n (2 ^ 31) then n else n + (2 ^ 64 - 2 ^ 32)

-- `__syscall_getdents64`: the records, and the number of bytes that is returned.
unfoldable pub getdents64 : ℕ → ℕ → M (List Dirent × ℕ)
getdents64 fd count = do
  throw_if (count / dirent_size == 0) einval
  o ← get_open fd
  state ← load_open o
  n ← load state.file
  throw_if (not (is_directory n.body)) enotdir
  let index = state.position % 2 ^ 32
  let filled = fill count index 0 (drop index state.dirents)
  elim n.parent [
    | none ↦ pure ([], 0)
    | some _ ↦ do set_position o (int_to_off_t filled.1); pure (filled.0, filled.2)
  ]

-- `doChdir`
unfoldable pub do_chdir : FileId → M (Unit {0})
do_chdir file = do
  n ← load file
  throw_if (not (is_directory n.body)) enotdir
  modify (λ s. record s { cwd = file })

-- `__syscall_chdir` and `__syscall_fchdir`
unfoldable pub chdir : Name → M (Unit {0})
chdir path = do file ← parse_file path at_fdcwd true; do_chdir file

unfoldable pub fchdir : ℕ → M (Unit {0})
fchdir fd = do o ← get_open fd; state ← load_open o; do_chdir state.file

-- The loop of `__syscall_getcwd`, from the directory up.
unfoldable pub cwd_loop : ℕ → FileId → FileId → Name → M Name
cwd_loop zero root curr result = λ _. out_of_fuel
cwd_loop (suc fuel) root curr result = elim (curr == root) [
  | true ↦ pure result
  | false ↦ do
    parent ← get_parent curr
    elim parent [
      | none ↦ throw enoent
      | some p ↦ do
        name ← Directory.get_name p curr
        cwd_loop fuel root p (slash ∷ (name ++ result))
    ]
]

-- `__syscall_getcwd`: the text stored in the buffer, and the length that is returned.
unfoldable pub getcwd : Bool → ℕ → M (Name × ℕ)
getcwd is_null size = do
  throw_if (is_null && ltb 0 size) efault
  throw_if (not is_null && size == 0) einval
  fuel ← gets (λ s. s.next_file + 1)
  root ← gets (λ s. s.root)
  cwd ← gets (λ s. s.cwd)
  found ← cwd_loop fuel root cwd []
  let result = if length found == 0 then codes "/" else found
  throw_if (leb size (length result + 1)) erange
  pure (result, length result + 1)
