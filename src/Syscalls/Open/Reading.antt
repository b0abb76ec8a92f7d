-- ===== src/Syscalls/Open/Reading.antt =====
-- `doOpen` for reading a file that is there.
use emscripten_memfswasm_wra.Base.{ℕ, ◌≡◌, true, some, arith}
use emscripten_memfswasm_wra.Base.Names.{Name}
use emscripten_memfswasm_wra.Posix.{o_rdonly, at_fdcwd, has}
use emscripten_memfswasm_wra.Memory.DataFile.{Bytes}
use emscripten_memfswasm_wra.Store.{FileId, File, Fs, memory_file, data_file, done, load}
use emscripten_memfswasm_wra.Directory.{get_child}
use emscripten_memfswasm_wra.Table.{free_slot}
use emscripten_memfswasm_wra.Syscalls.Io.{fd_close}
use emscripten_memfswasm_wra.Syscalls.Io.RoundTrip.{IsOpen}
use emscripten_memfswasm_wra.Paths.{parse_parent}
use emscripten_memfswasm_wra.Syscalls.Open.{
  openat, do_open, open_old, open_target, check_access, perm_read,
}
use emscripten_memfswasm_wra.Syscalls.Open.Granted
use emscripten_memfswasm_wra.Syscalls.Open.Granted.{granted-eq, granted-IsOpen, close-granted, used}
use emscripten_memfswasm_wra.Syscalls.Open.Mkdir.{IsPlain}

module _ (s : Fs) (dir c : FileId) (m : File) (b : Bytes) (name path : Name) (plain : IsPlain name)
    (parsed : parse_parent path at_fdcwd s ≡ done (dir, name) s)
    (found : get_child dir name s ≡ done (some c) s) (there : s.files c ≡ some m)
    (memory : m.body ≡ data_file (memory_file b)) (readable : has m.mode perm_read ≡ true) where
  abbrev pub fd : ℕ
  fd = free_slot s.table

  abbrev pub opened : Fs
  opened = Granted.opened s c m b 0 there memory

  abbrev pub closed_again : Fs
  closed_again = Granted.closed_again s c m b 0 there memory

  openat-eq : openat at_fdcwd path o_rdonly 0 s ≡ done fd opened
  unfolding openat do_open open_old open_target check_access load has
  openat-eq =
      let g = granted-eq s c m b 0 there memory in
      ground (arith, g, parsed, found, there, memory, readable, plain.0)

  -- The descriptor is the lowest free one, and stands for the file from its start.
  pub openat-IsOpen :
      (openat at_fdcwd path o_rdonly 0 s ≡ done fd opened)
      × IsOpen opened fd s.next_open (used s c m b 0 there memory) m b
  openat-IsOpen = (openat-eq, granted-IsOpen s c m b 0 there memory)

  pub close-opened : fd_close fd opened ≡ done tt closed_again
  close-opened = close-granted s c m b 0 there memory
