-- ===== src/JsApi.antt =====
-- The calls that the JavaScript interface makes: wasmfs/js_api.cpp, over the calls of
-- wasmfs/syscalls.cpp.
--
-- An `int` is its 32-bit word, so a negative error is 2^32 less its number. What a call stores
-- through its pointers, or in the buffer that it returns, stands beside the word. A call of `abort`
-- is a fault.
pub mod WriteFile
pub mod Readdir
pub mod ReadFile
pub mod GetPath
use emscripten_memfswasm_wra.Base.{
  ℕ, ◌+◌, ◌-◌, ◌*◌, ◌/◌, ◌%◌, ◌^◌, Bool, true, false, Option, none, some, List, [], ◌∷◌, length,
  ◌==◌, if◌then◌else◌, ltb, bit_and,
}
use emscripten_memfswasm_wra.Base.Names.{Name}
use emscripten_memfswasm_wra.Posix.{
  at_fdcwd, at_removedir, at_symlink_nofollow, enoent, eisdir, eexist, s_ifmt, s_ifdir, o_rdonly,
}
use emscripten_memfswasm_wra.Memory.DataFile.{Bytes}
use emscripten_memfswasm_wra.Store.{
  FileId, data_file, directory, symlink, M, Result, value, error, pure, crash, attempt, ◌>>=◌, ◌>>◌,
  load,
}
use emscripten_memfswasm_wra.Files.{write_file, get_size, notify}
use emscripten_memfswasm_wra.Directory.{insert_data_file}
use emscripten_memfswasm_wra.Directory
use emscripten_memfswasm_wra.Paths.{parse_parent}
use emscripten_memfswasm_wra.Wasi.{as_word}
use emscripten_memfswasm_wra.Syscalls.Io
use emscripten_memfswasm_wra.Syscalls.Io.{Ciovec, Iovec}
use emscripten_memfswasm_wra.Syscalls.Open
use emscripten_memfswasm_wra.Syscalls.Open.{mkdirat, mknodat, openat, create_directory_in}
use emscripten_memfswasm_wra.Syscalls.Trees
use emscripten_memfswasm_wra.Syscalls.Trees.{unlinkat, renameat, symlinkat, readlinkat}
use emscripten_memfswasm_wra.Syscalls.Listing
use emscripten_memfswasm_wra.Syscalls.Metadata
use emscripten_memfswasm_wra.Syscalls.Metadata.{
  Stat, at, utimensat, fallocate, truncate64, ftruncate64, stat64, lstat64, fchmodat2,
}

-- The word of a call that returns 0 or a negative error.
abbrev pub status : Result (Unit {0}) → ℕ
status (value _) = 0
status (error e) = 2 ^ 32 - e

-- The same, with what the call stores if it succeeds.
abbrev pub answer : {A : Type 0} → Result A → ℕ × Option A
answer (value a) = (0, some a)
answer (error e) = (2 ^ 32 - e, none)

abbrev pub returned : M (Unit {0}) → M ℕ
returned m = do r ← attempt m; pure (status r)

abbrev pub counted : M ℕ → M ℕ
counted m = do r ← attempt m; pure (as_word r)

-- The child that `_wasmfs_write_file` writes to: the one that is there, or a new data file.
unfoldable pub child_to_write : FileId → Name → M (Option FileId)
child_to_write parent name = do
  found ← Directory.get_child parent name
  elim found [ some child ↦ pure (some child) | none ↦ insert_data_file parent name 0o777 ]

-- `_wasmfs_write_file` once the file is there. The result of the write is compared with the errno
-- of a success, which is 0.
unfoldable pub write_at_end : FileId → Bytes → M ℕ
write_at_end file bytes = do
  notify file
  offset ← get_size file
  result ← attempt (write_file file bytes offset)
  elim result [
    | error e ↦ pure 0
    | value n ↦ if n == 0 then (do notify file; pure (length bytes)) else pure 0
  ]

-- `_wasmfs_write_file`
unfoldable pub write_whole : Name → Bytes → M ℕ
write_whole path bytes = do
  parsed ← attempt (parse_parent path at_fdcwd)
  elim parsed [
    | error e ↦ pure 0
    | value (parent, name) ↦ do
      child ← child_to_write parent name
      elim child [
        | none ↦ pure 0
        | some file ↦ do
          n ← load file
          elim n.body [
            | data_file _ ↦ write_at_end file bytes
            | directory _ ↦ pure 0
            | symlink _ ↦ pure 0
          ]
      ]
  ]

unfoldable pub mkdir : Name → ℕ → M ℕ
mkdir path mode = returned (mkdirat at_fdcwd path mode)

unfoldable pub rmdir : Name → M ℕ
rmdir path = returned (unlinkat at_fdcwd path at_removedir)

unfoldable pub open_path : Name → ℕ → ℕ → M ℕ
open_path path flags mode = counted (openat at_fdcwd path flags mode)

unfoldable pub allocate : ℕ → ℕ → ℕ → M ℕ
allocate fd offset len = returned (fallocate fd offset len)

-- The device is not looked at.
unfoldable pub mknod : Name → ℕ → ℕ → M ℕ
mknod path mode dev = counted (mknodat at_fdcwd path mode)

unfoldable pub unlink : Name → M ℕ
unlink path = returned (unlinkat at_fdcwd path 0)

unfoldable pub chdir : Name → M ℕ
chdir path = returned (Listing.chdir path)

unfoldable pub make_symlink : Name → Name → M ℕ
make_symlink old_path new_path = returned (symlinkat old_path at_fdcwd new_path)

-- `PATH_MAX`
abbrev pub path_max : ℕ
path_max = 4096

-- The text in the buffer that `_wasmfs_readlink` returns, whose address is 0 here. The terminating 0
-- is written behind the bytes, which may fill the buffer.
unfoldable pub readlink : Name → M (ℕ × Option Name)
readlink path = do
  r ← attempt (readlinkat at_fdcwd path path_max)
  elim r [
    | error e ↦ pure (2 ^ 32 - e, none)
    | value target ↦ if length target == path_max then crash else pure (0, some target)
  ]

-- The four calls that go through one vector of the preview interface.
unfoldable pub write : ℕ → Bytes → M ℕ
write fd buf = counted (Io.fd_write fd (record { is_null = false; bytes = buf } ∷ []))

unfoldable pub pwrite : ℕ → Bytes → ℕ → M ℕ
pwrite fd buf offset =
    counted (Io.fd_pwrite fd (record { is_null = false; bytes = buf } ∷ []) offset)

abbrev pub first_buffer : List Bytes → Bytes
first_buffer [] = []
first_buffer (b ∷ bs) = b

abbrev pub received : Result (List Bytes × ℕ) → Bytes × ℕ
received (value (bytes, n)) = (first_buffer bytes, n)
received (error e) = ([], 2 ^ 32 - e)

unfoldable pub read : ℕ → ℕ → M (Bytes × ℕ)
read fd count = do
  r ← attempt (Io.fd_read fd (record { is_null = false; len = count } ∷ []))
  pure (received r)

unfoldable pub pread : ℕ → ℕ → ℕ → M (Bytes × ℕ)
pread fd count offset = do
  r ← attempt (Io.fd_pread fd (record { is_null = false; len = count } ∷ []) offset)
  pure (received r)

unfoldable pub chmod : Name → ℕ → M ℕ
chmod path mode = returned (Metadata.chmod path mode)

unfoldable pub fchmod : ℕ → ℕ → M ℕ
fchmod fd mode = returned (Metadata.fchmod fd mode)

unfoldable pub lchmod : Name → ℕ → M ℕ
lchmod path mode = returned (fchmodat2 at_fdcwd path mode at_symlink_nofollow)

-- The new offset is cut down to an `int`.
abbrev pub as_int : Result ℕ → ℕ
as_int (value n) = n % 2 ^ 32
as_int (error e) = 2 ^ 32 - e

unfoldable pub llseek : ℕ → ℕ → ℕ → M ℕ
llseek fd offset whence = do r ← attempt (Io.fd_seek fd offset whence); pure (as_int r)

unfoldable pub rename : Name → Name → M ℕ
rename oldpath newpath = returned (renameat at_fdcwd oldpath at_fdcwd newpath)

unfoldable pub truncate : Name → ℕ → M ℕ
truncate path size = returned (truncate64 path size)

unfoldable pub ftruncate : ℕ → ℕ → M ℕ
ftruncate fd size = returned (ftruncate64 fd size)

abbrev pub errno_of : Result (Unit {0}) → ℕ
errno_of (value _) = 0
errno_of (error e) = e

-- What `__wasi_fd_close` returns is passed on.
unfoldable pub close : ℕ → M ℕ
close fd = do r ← attempt (Io.fd_close fd); pure (errno_of r)

-- A time that is not negative, split into seconds and nanoseconds, and put together again by
-- `timespec_to_ms`.
unfoldable pub split_ms : ℕ → ℕ
split_ms ms = ms / 1000 * 1000 + ms % 1000 * 1000000 / 1000000

unfoldable pub utime : Name → ℕ → ℕ → M ℕ
utime path atime_ms mtime_ms =
    returned (utimensat at_fdcwd path (some (at (split_ms atime_ms), at (split_ms mtime_ms))) 0)

unfoldable pub stat : Name → M (ℕ × Option Stat)
stat path = do r ← attempt (stat64 path); pure (answer r)

unfoldable pub lstat : Name → M (ℕ × Option Stat)
lstat path = do r ← attempt (lstat64 path); pure (answer r)

-- `_wasmfs_mount`: an error of the removal is returned, but for `ENOENT`.
unfoldable pub mount : Name → ℕ → M ℕ
mount path backend = do
  removed ← attempt (Trees.rmdir path)
  elim removed [
    | value _ ↦ returned (create_directory_in path 0o777 backend)
    | error e ↦
        if e == enoent then returned (create_directory_in path 0o777 backend) else pure (2 ^ 32 - e)
  ]

unfoldable pub unmount : Name → M ℕ
unmount path = returned (Trees.unmount path)

-- `_wasmfs_identify`, whose `stat` is that of the C library.
abbrev pub identified : Result Stat → ℕ
identified (error e) = enoent
identified (value st) = if bit_and st.mode s_ifmt == s_ifdir then eisdir else eexist

unfoldable pub identify : (Name → M (Result Stat)) → Name → M ℕ
identify libc_stat path = do r ← libc_stat path; pure (identified r)
