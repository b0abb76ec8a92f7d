-- ===== src/Wasi/Errors.antt =====
-- What the exports of memfs.cpp report.
use emscripten_memfswasm_wra.Base.{ℕ, ◌-◌, ◌%◌, ◌^◌, ◌≤◌, ◌<◌, ◌≡◌, length, arith}
use emscripten_memfswasm_wra.Base.Names.{Name}
use emscripten_memfswasm_wra.Posix.{ebadf}
use emscripten_memfswasm_wra.Store.{Fs, fail, done}
use emscripten_memfswasm_wra.Table.{slot, get_entry}
use emscripten_memfswasm_wra.Paths.{get_open}
use emscripten_memfswasm_wra.Syscalls.Open.{openat}
use emscripten_memfswasm_wra.Syscalls.Descriptors.{dup3}
use emscripten_memfswasm_wra.Syscalls.Descriptors.Sharing.{dup3_shares}
use emscripten_memfswasm_wra.Wasi.{path_open, fd_renumber}

-- When `openat` fails with an error below 2^16, `path_open` still returns 0, and stores a word from
-- the upper half of the 32-bit words. If the table is no longer than 2^31, that is no open
-- descriptor: looking it up fails with `EBADF`.
pub path_open_failed :
    (dirfd dirflags : ℕ) (path : Name) (oflags e : ℕ) (s t : Fs)
    → openat dirfd path (oflags % 2 ^ 16) 0 s ≡ fail e t
    → 0 < e
    → e < 2 ^ 16
    → length t.table ≤ 2 ^ 31
    → (word : ℕ) × (path_open dirfd dirflags path oflags s ≡ done (0, word) t)
      × (2 ^ 31 < word)
      × (word < 2 ^ 32)
      × (get_open word t ≡ fail ebadf t)
unfolding path_open get_open get_entry
path_open_failed dirfd dirflags path oflags e s t h pos small room =
    (2 ^ 32 - e, ground (arith, h), omega arith, omega arith, ground arith)

-- A renumbering that succeeds is reported by the number of the new descriptor as the errno, so it
-- reads as an error unless that number is 0 modulo 2^16.
renumber_reports :
    (s t : Fs) (fd to r : ℕ)
    → dup3 fd to 0 s ≡ done r t
    → (fd_renumber fd to s ≡ done (to % 2 ^ 16) t) × (slot t.table to ≡ slot s.table fd)
unfolding fd_renumber
renumber_reports s t fd to r h =
    let (same, ne, old, all) = dup3_shares s t fd to 0 r to h in
    (ground (arith, h, same), ground (arith, all))
