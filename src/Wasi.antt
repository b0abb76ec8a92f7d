-- ===== src/Wasi.antt =====
-- The exports of memfs.cpp, over the calls of wasmfs/syscalls.cpp.
--
-- Each result is the `__wasi_errno_t` that the export returns, a 16-bit word, with what it stores
-- through its pointers. A call of `__syscall_*` returns a negative error, and where the export
-- passes that on, the word is 2^16 less the number of the error.
pub mod Errors
use emscripten_memfswasm_wra.Base.{
  ℕ, ◌+◌, ◌-◌, ◌%◌, ◌^◌, Bool, true, Option, none, some, List, [], ◌∷◌, length, bit_or,
}
use emscripten_memfswasm_wra.Base.Names.{Name}
use emscripten_memfswasm_wra.Posix.{at_fdcwd, at_removedir, s_irugo, s_ixugo}
use emscripten_memfswasm_wra.Memory.DataFile.{Bytes}
use emscripten_memfswasm_wra.Store.{M, Result, value, error, pure, attempt, ◌>>=◌, ◌>>◌, load_open}
use emscripten_memfswasm_wra.Paths.{parse_file, get_open}
use emscripten_memfswasm_wra.Syscalls.Io
use emscripten_memfswasm_wra.Syscalls.Io.{Ciovec, Iovec}
use emscripten_memfswasm_wra.Syscalls.Descriptors.{dup3}
use emscripten_memfswasm_wra.Syscalls.Open.{openat, mkdirat}
use emscripten_memfswasm_wra.Syscalls.Trees.{unlinkat, renameat, symlinkat, readlinkat}
use emscripten_memfswasm_wra.Syscalls.Listing.{Dirent, getdents64}
use emscripten_memfswasm_wra.Syscalls.Metadata
use emscripten_memfswasm_wra.Syscalls.Metadata.{fallocate, ftruncate64, set_times, get_file_stat}

-- The errno that is returned, and what is stored if there is something to store.
abbrev pub Reply : Type 0 → Type 0
Reply A = ℕ × Option A

-- `return -err` in a call that has positive errors.
abbrev pub positive : {A : Type 0} → Result A → Reply A
positive (value a) = (0, some a)
positive (error e) = (e, none)

-- A negative `int` as a `__wasi_errno_t`.
abbrev pub negative : {A : Type 0} → Result A → Reply A
negative (value a) = (0, some a)
negative (error e) = (2 ^ 16 - e, none)

abbrev pub wasi : {A : Type 0} → M A → M (Reply A)
wasi m = do r ← attempt m; pure (positive r)

abbrev pub raw : {A : Type 0} → M A → M (Reply A)
raw m = do r ← attempt m; pure (negative r)

-- A result stored as an unsigned word: the value, or the negative error.
abbrev pub as_word : Result ℕ → ℕ
as_word (value n) = n
as_word (error e) = 2 ^ 32 - e

-- The stubs
unfoldable pub fd_advise : ℕ → ℕ → ℕ → ℕ → M ℕ
fd_advise fd offset len advice = pure 0

unfoldable pub fd_fdstat_set_flags : ℕ → ℕ → M ℕ
fd_fdstat_set_flags fd flags = pure 0

unfoldable pub fd_fdstat_set_rights : ℕ → ℕ → ℕ → M ℕ
fd_fdstat_set_rights fd base inheriting = pure 0

unfoldable pub fd_prestat_get : ℕ → M ℕ
fd_prestat_get fd = pure 0

unfoldable pub fd_prestat_dir_name : ℕ → ℕ → M ℕ
fd_prestat_dir_name fd path_len = pure 0

unfoldable pub fd_allocate : ℕ → ℕ → ℕ → M (Reply (Unit {0}))
fd_allocate fd offset len = raw (fallocate fd offset len)

unfoldable pub fd_close : ℕ → M (Reply (Unit {0}))
fd_close fd = wasi (Io.fd_close fd)

unfoldable pub fd_datasync : ℕ → M (Reply (Unit {0}))
fd_datasync fd = wasi (Io.fd_sync fd)

unfoldable pub fd_sync : ℕ → M (Reply (Unit {0}))
fd_sync fd = wasi (Io.fd_sync fd)

unfoldable pub fd_fdstat_get : ℕ → M (Reply ℕ)
fd_fdstat_get fd = wasi (Metadata.fd_fdstat_get fd)

unfoldable pub fd_filestat_get : ℕ → M (Reply ℕ)
fd_filestat_get fd = wasi (Metadata.fd_fdstat_get fd)

unfoldable pub fd_filestat_set_size : ℕ → ℕ → M (Reply (Unit {0}))
fd_filestat_set_size fd size = raw (ftruncate64 fd size)

-- The set of flags is not looked at.
unfoldable pub fd_filestat_set_times : ℕ → ℕ → ℕ → ℕ → M (Reply (Unit {0}))
fd_filestat_set_times fd atim mtim fst_flags =
    raw (do o ← get_open fd; state ← load_open o; set_times state.file atim mtim)

unfoldable pub fd_pread : ℕ → List Iovec → ℕ → M (Reply (List Bytes × ℕ))
fd_pread fd iovs offset = wasi (Io.fd_pread fd iovs offset)

unfoldable pub fd_pwrite : ℕ → List Ciovec → ℕ → M (Reply ℕ)
fd_pwrite fd iovs offset = wasi (Io.fd_pwrite fd iovs offset)

unfoldable pub fd_read : ℕ → List Iovec → M (Reply (List Bytes × ℕ))
fd_read fd iovs = wasi (Io.fd_read fd iovs)

unfoldable pub fd_write : ℕ → List Ciovec → M (Reply ℕ)
fd_write fd iovs = wasi (Io.fd_write fd iovs)

abbrev pub listed : Result (List Dirent × ℕ) → List Dirent × ℕ
listed (value (dirents, bytes)) = (dirents, bytes)
listed (error e) = ([], 2 ^ 32 - e)

-- The errno, the records put into the buffer, and `*bufused`. The cookie is not looked at.
unfoldable pub fd_readdir : ℕ → ℕ → ℕ → M (ℕ × List Dirent × ℕ)
fd_readdir fd buf_len cookie = do
  r ← attempt (getdents64 fd buf_len)
  pure (0, (listed r).0, (listed r).1)

abbrev pub renumbered : Result ℕ → ℕ
renumbered (value n) = n % 2 ^ 16
renumbered (error e) = 2 ^ 16 - e

-- What `dup3` returns is returned as the errno.
unfoldable pub fd_renumber : ℕ → ℕ → M ℕ
fd_renumber fd to = do r ← attempt (dup3 fd to 0); pure (renumbered r)

unfoldable pub fd_seek : ℕ → ℕ → ℕ → M (Reply ℕ)
fd_seek fd offset whence = wasi (Io.fd_seek fd offset whence)

-- The test `*offset < 0` is on an unsigned value and never true.
unfoldable pub fd_tell : ℕ → M (Reply ℕ)
fd_tell fd = wasi (do o ← get_open fd; state ← load_open o; pure state.position)

-- The descriptor passed on is not the argument `fd`, but the address of the C library's function
-- `dirfd`, the first argument here.
unfoldable pub path_create_directory : ℕ → ℕ → Name → M (Reply (Unit {0}))
path_create_directory dirfd_address fd path =
    raw (mkdirat dirfd_address path (bit_or s_irugo s_ixugo))

-- The descriptor is not used.
unfoldable pub path_filestat_get : ℕ → ℕ → Name → M (Reply ℕ)
path_filestat_get fd flags path = raw (do file ← parse_file path at_fdcwd true; get_file_stat file)

unfoldable pub path_filestat_set_times : ℕ → ℕ → Name → ℕ → ℕ → ℕ → M (Reply (Unit {0}))
path_filestat_set_times fd flags path atim mtim fst_flags =
    raw (do file ← parse_file path fd true; set_times file atim mtim)

-- The target of the link is `new_path`, and its place `old_path`.
unfoldable pub path_link : ℕ → ℕ → Name → ℕ → Name → M (Reply (Unit {0}))
path_link old_fd old_flags old_path new_fd new_path = raw (symlinkat new_path new_fd old_path)

unfoldable pub path_symlink : Name → ℕ → Name → M (Reply (Unit {0}))
path_symlink old_path fd new_path = raw (symlinkat new_path fd old_path)

-- The errno and `*opened_fd`. The mode is 0, and the flags are those of `open`.
unfoldable pub path_open : ℕ → ℕ → Name → ℕ → M (ℕ × ℕ)
path_open dirfd dirflags path oflags = do
  r ← attempt (openat dirfd path (oflags % 2 ^ 16) 0)
  pure (0, as_word r)

unfoldable pub path_readlink : ℕ → Name → ℕ → M (Reply Name)
path_readlink dir_fd path buf_len = wasi (readlinkat dir_fd path buf_len)

unfoldable pub path_remove_directory : ℕ → Name → M (Reply (Unit {0}))
path_remove_directory fd path = raw (unlinkat fd path at_removedir)

unfoldable pub path_rename : ℕ → Name → ℕ → Name → M (Reply (Unit {0}))
path_rename old_fd old_path new_fd new_path = raw (renameat old_fd old_path new_fd new_path)

unfoldable pub path_unlink_file : ℕ → Name → M (Reply (Unit {0}))
path_unlink_file dirfd path = raw (unlinkat dirfd path 0)
