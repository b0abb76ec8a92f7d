-- ===== src/Syscalls/Metadata.antt =====
-- Sizes, modes and times: `newfstatat`, `utimensat`, `fchmodat2`, `fchmod`, `fchownat`,
-- `faccessat`, `truncate64`, `ftruncate64`, `fallocate` and `statfs64` of wasmfs/syscalls.cpp, and
-- the helpers `__set_times` and `__get_file_stat` that were added for memfs.cpp.
pub mod Sizes
use emscripten_memfswasm_wra.Base.{
  ℕ, ◌+◌, ◌-◌, ◌/◌, ◌%◌, Bool, true, not, ◌&&◌, ◌||◌, Option, none, some, [], leb, ltb, ◌==◌,
  if◌then◌else◌, bit_or,
}
use emscripten_memfswasm_wra.Base.Names.{Name}
use emscripten_memfswasm_wra.Posix.{
  eacces, ebadf, einval, eisdir, enodev, at_empty_path, at_fdcwd, at_no_automount, at_removedir,
  at_symlink_nofollow, has,
}
use emscripten_memfswasm_wra.Memory.DataFile.{off_t_min, off_t_mod}
use emscripten_memfswasm_wra.Store.{
  FileId, is_directory, is_data_file, M, value, error, pure, throw, throw_if, attempt, ◌>>=◌, ◌>>◌,
  load, load_open, set_mode, set_atime, set_mtime, update_ctime, date_now,
}
use emscripten_memfswasm_wra.Files.{get_size, set_size}
use emscripten_memfswasm_wra.Paths.{parse_file, get_file_at, get_open}
use emscripten_memfswasm_wra.Syscalls.Open.{perm_read, perm_write, perm_execute}

-- `struct stat`. The times are the milliseconds that `ms_to_timespec` splits.
pub record Stat : Type 0 where
  pub size : ℕ
  pub dev : ℕ
  pub mode : ℕ
  pub ino : ℕ
  pub nlink : ℕ
  pub uid : ℕ
  pub gid : ℕ
  pub rdev : ℕ
  pub blocks : ℕ
  pub blksize : ℕ
  pub atim : ℕ
  pub mtim : ℕ
  pub ctim : ℕ

-- `flags & ~allowed`, on a 32-bit word.
abbrev pub beyond : ℕ → ℕ → Bool
beyond flags allowed = has flags (0xffffffff - allowed)

-- `__syscall_newfstatat`
unfoldable pub newfstatat : ℕ → Name → ℕ → M Stat
newfstatat dirfd path flags = do
  throw_if (beyond flags (bit_or at_empty_path (bit_or at_no_automount at_symlink_nofollow))) einval
  file ← get_file_at dirfd path flags
  n ← load file
  size ← get_size file
  pure (record {
    size = size;
    dev = 1;
    mode = n.mode;
    ino = file;
    nlink = 1;
    uid = 0;
    gid = 0;
    rdev = 0;
    blocks = (size + 511) / 512;
    blksize = 4096;
    atim = n.atime;
    mtim = n.mtime;
    ctim = n.ctime;
  })

-- `__syscall_stat64`, `__syscall_lstat64` and `__syscall_fstat64`
unfoldable pub stat64 : Name → M Stat
stat64 path = newfstatat at_fdcwd path 0

unfoldable pub lstat64 : Name → M Stat
lstat64 path = newfstatat at_fdcwd path at_symlink_nofollow

unfoldable pub fstat64 : ℕ → M Stat
fstat64 fd = newfstatat fd [] at_empty_path

-- A time given to `utimensat`: `UTIME_OMIT`, `UTIME_NOW`, or the milliseconds of a `timespec`.
pub data Stamp : Type 0 where
  omit now : Stamp
  at : ℕ → Stamp

-- `timespec_to_ms`, with nothing for the infinity that stands for `UTIME_OMIT`.
unfoldable pub timespec_to_ms : Stamp → M (Option ℕ)
timespec_to_ms omit = pure none
timespec_to_ms now = do t ← date_now; pure (some t)
timespec_to_ms (at t) = pure (some t)

-- The two times of a call; without any, both are the one current time.
unfoldable pub requested_times : Option (Stamp × Stamp) → M (Option ℕ × Option ℕ)
requested_times none = do t ← date_now; pure (some t, some t)
requested_times (some (a, m)) = do
  atime ← timespec_to_ms a
  mtime ← timespec_to_ms m
  pure (atime, mtime)

abbrev pub when : Option ℕ → (ℕ → M (Unit {0})) → M (Unit {0})
when none act = pure tt
when (some t) act = act t

-- `__syscall_utimensat`
unfoldable pub utimensat : ℕ → Name → Option (Stamp × Stamp) → ℕ → M (Unit {0})
utimensat dirfd path times flags = do
  throw_if (beyond flags at_symlink_nofollow) einval
  file ← get_file_at dirfd path (bit_or flags at_empty_path)
  (atime, mtime) ← requested_times times
  when atime (set_atime file)
  when mtime (set_mtime file)

-- `__set_times`. No value of a `__wasi_timestamp_t` equals infinity, so both are always set.
unfoldable pub set_times : FileId → ℕ → ℕ → M (Unit {0})
set_times file atim mtim = do set_atime file atim; set_mtime file mtim

-- `__WASI_FILETYPE_DIRECTORY` and `__WASI_FILETYPE_REGULAR_FILE`
abbrev pub filetype_directory : ℕ
filetype_directory = 3

abbrev pub filetype_regular_file : ℕ
filetype_regular_file = 4

-- `__get_file_stat`
unfoldable pub get_file_stat : FileId → M ℕ
get_file_stat file = do
  n ← load file
  pure (if is_directory n.body then filetype_directory else filetype_regular_file)

-- `__wasi_fd_fdstat_get`
unfoldable pub fd_fdstat_get : ℕ → M ℕ
fd_fdstat_get fd = do o ← get_open fd; state ← load_open o; get_file_stat state.file

-- `__syscall_fchmodat2`, `__syscall_chmod` and `__syscall_fchmod`
unfoldable pub fchmodat2 : ℕ → Name → ℕ → ℕ → M (Unit {0})
fchmodat2 dirfd path mode flags = do
  throw_if (beyond flags at_symlink_nofollow) einval
  file ← get_file_at dirfd path flags
  set_mode file mode
  update_ctime file

unfoldable pub chmod : Name → ℕ → M (Unit {0})
chmod path mode = fchmodat2 at_fdcwd path mode 0

unfoldable pub fchmod : ℕ → ℕ → M (Unit {0})
fchmod fd mode = do
  o ← get_open fd
  state ← load_open o
  set_mode state.file mode
  update_ctime state.file

-- `__syscall_fchownat` and `__syscall_fchown32`, which keep no owner.
unfoldable pub fchownat : ℕ → Name → ℕ → M (Unit {0})
fchownat dirfd path flags = do
  throw_if (beyond flags (bit_or at_empty_path at_symlink_nofollow)) einval
  get_file_at dirfd path flags
  pure tt

unfoldable pub fchown32 : ℕ → M (Unit {0})
fchown32 fd = fchownat fd [] at_empty_path

-- `F_OK`, `R_OK`, `W_OK`, `X_OK`; `AT_EACCESS` has the value of `AT_REMOVEDIR`.
abbrev pub r_ok : ℕ
r_ok = 4

abbrev pub w_ok : ℕ
w_ok = 2

abbrev pub x_ok : ℕ
x_ok = 1

-- `__syscall_faccessat`
unfoldable pub faccessat : ℕ → Name → ℕ → ℕ → M (Unit {0})
faccessat dirfd path amode flags = do
  throw_if (not (amode == 0) && beyond amode 7) einval
  throw_if (beyond flags (bit_or at_removedir at_symlink_nofollow)) einval
  file ← parse_file path dirfd true
  n ← load file
  throw_if (has amode r_ok && not (has n.mode perm_read)) eacces
  throw_if (has amode w_ok && not (has n.mode perm_write)) eacces
  throw_if (has amode x_ok && not (has n.mode perm_execute)) eacces

-- `doTruncate`
unfoldable pub do_truncate : FileId → ℕ → M (Unit {0})
do_truncate file size = do
  n ← load file
  throw_if (not (is_data_file n.body)) eisdir
  throw_if (not (has n.mode perm_write)) eacces
  throw_if (leb off_t_min size) einval
  set_size file size

-- `__syscall_truncate64`
unfoldable pub truncate64 : Name → ℕ → M (Unit {0})
truncate64 path size = do file ← parse_file path at_fdcwd true; do_truncate file size

-- `__syscall_ftruncate64`, which reports `EACCES` as `EINVAL`.
unfoldable pub ftruncate64 : ℕ → ℕ → M (Unit {0})
ftruncate64 fd size = do
  o ← get_open fd
  state ← load_open o
  result ← attempt (do_truncate state.file size)
  elim result [ value _ ↦ pure tt | error e ↦ throw (if e == eacces then einval else e) ]

-- `__syscall_fallocate`, on two `off_t` whose sum wraps.
unfoldable pub fallocate : ℕ → ℕ → ℕ → M (Unit {0})
fallocate fd offset len = do
  o ← get_open fd
  state ← load_open o
  n ← load state.file
  throw_if (not (is_data_file n.body)) enodev
  throw_if (not (has n.mode perm_write)) ebadf
  throw_if (leb off_t_min offset || len == 0 || leb off_t_min len) einval
  size ← get_size state.file
  if ltb ((offset + len) % off_t_mod) off_t_min && ltb size ((offset + len) % off_t_mod)
      then set_size state.file ((offset + len) % off_t_mod)
      else pure tt

-- `doStatFS`: the only field that is not a constant, `f_files`.
unfoldable pub do_statfs : FileId → Bool → M ℕ
do_statfs file size_matches = do throw_if (not size_matches) einval; pure file

-- `__syscall_statfs64` and `__syscall_fstatfs64`
unfoldable pub statfs64 : Name → Bool → M ℕ
statfs64 path size_matches = do file ← parse_file path at_fdcwd true; do_statfs file size_matches

unfoldable pub fstatfs64 : ℕ → Bool → M ℕ
fstatfs64 fd size_matches = do
  o ← get_open fd
  state ← load_open o
  do_statfs state.file size_matches
