-- ===== src/Shape/Sequences.antt =====
-- Sequences of system calls from the start of an instance.
use emscripten_memfswasm_wra.Base.{Bool, ℕ, ◌≡◌, ◌⊎◌, inl, inr, true, Option, List, subst}
use emscripten_memfswasm_wra.Base.Names.{Name}
use emscripten_memfswasm_wra.Store.{Fs, Host, M, Out, done, fail, pure, ◌>>◌}
use emscripten_memfswasm_wra.Instance.{boot, empty}
use emscripten_memfswasm_wra.Paths.{parse_parent, parse_file}
use emscripten_memfswasm_wra.Syscalls.Io.{
  Ciovec, Iovec, fd_write, fd_read, fd_pwrite, fd_pread, fd_close, fd_seek,
}
use emscripten_memfswasm_wra.Syscalls.Descriptors.{FcntlCmd, dup, dup3, fcntl64, pipe}
use emscripten_memfswasm_wra.Syscalls.Open.{openat, mknodat, mkdirat, create_directory_in}
use emscripten_memfswasm_wra.Syscalls.Trees.{unlinkat, unmount, symlinkat}
use emscripten_memfswasm_wra.Syscalls.Listing.{chdir, fchdir, getdents64}
use emscripten_memfswasm_wra.Syscalls.Metadata.{
  Stamp, utimensat, fchmodat2, fchmod, truncate64, ftruncate64, fallocate,
}
use emscripten_memfswasm_wra.Shape.{IsShaped, Shaped, Same, Keeps, Always}
use emscripten_memfswasm_wra.Shape.Rules.{Keeps-then, Keeps-Reads, Reads-pure}
use emscripten_memfswasm_wra.Shape.Reading.{Reads-parse_parent, Reads-parse_file}
use emscripten_memfswasm_wra.Memory.DataFile.{Bytes}
use emscripten_memfswasm_wra.Syscalls.Open.{create_file_in}
use emscripten_memfswasm_wra.Syscalls.Mapping.{mmap, msync}
use emscripten_memfswasm_wra.Wasi.{fd_filestat_set_times, path_filestat_set_times}
use emscripten_memfswasm_wra.JsApi.{write_whole}
use emscripten_memfswasm_wra.Shape.Calls.Whole.{
  Keeps-create_file_in, Keeps-write_whole, Keeps-fd_filestat_set_times,
  Keeps-path_filestat_set_times, Keeps-mmap, Keeps-msync,
}
use emscripten_memfswasm_wra.Shape.Calls.Opening.{
  Keeps-openat, Keeps-mknodat, Keeps-mkdirat, Keeps-create_directory_in,
}
use emscripten_memfswasm_wra.Shape.Calls.Removing.{Keeps-unlinkat, Keeps-unmount, Keeps-symlinkat}
use emscripten_memfswasm_wra.Shape.Calls.Transfers.{
  Keeps-fd_write, Keeps-fd_read, Keeps-fd_pwrite, Keeps-fd_pread, Keeps-fd_close, Keeps-fd_seek,
}
use emscripten_memfswasm_wra.Shape.Calls.Descriptors.{
  Keeps-dup, Keeps-dup3, Keeps-fcntl64, Keeps-pipe,
}
use emscripten_memfswasm_wra.Shape.Calls.Fields.{
  Keeps-utimensat, Keeps-fchmodat2, Keeps-fchmod, Keeps-truncate64, Keeps-ftruncate64,
  Keeps-fallocate, Keeps-chdir, Keeps-fchdir, Keeps-getdents64,
}
use emscripten_memfswasm_wra.Shape.Booted.{booted, boot-eq, booted-IsShaped}

-- The calls that change the state: of WASI, of the C library, of JavaScript and on mappings. Left out are
-- `renameat`, and `_wasmfs_rename` with it, and preloading; other calls are made of these or change
-- nothing.
pub data Call : Type 0 where
  call_openat : ℕ → Name → ℕ → ℕ → Call
  call_mknodat : ℕ → Name → ℕ → Call
  call_mkdirat : ℕ → Name → ℕ → Call
  call_create_directory : Name → ℕ → ℕ → Call
  call_unlinkat : ℕ → Name → ℕ → Call
  call_unmount : Name → Call
  call_symlinkat : Name → ℕ → Name → Call
  call_write : ℕ → List Ciovec → Call
  call_pwrite : ℕ → List Ciovec → ℕ → Call
  call_read : ℕ → List Iovec → Call
  call_pread : ℕ → List Iovec → ℕ → Call
  call_close : ℕ → Call
  call_seek : ℕ → ℕ → ℕ → Call
  call_dup : ℕ → Call
  call_dup3 : ℕ → ℕ → ℕ → Call
  call_fcntl : ℕ → FcntlCmd → Call
  call_pipe : Call
  call_utimensat : ℕ → Name → Option (Stamp × Stamp) → ℕ → Call
  call_fchmodat : ℕ → Name → ℕ → ℕ → Call
  call_fchmod : ℕ → ℕ → Call
  call_truncate : Name → ℕ → Call
  call_ftruncate : ℕ → ℕ → Call
  call_fallocate : ℕ → ℕ → ℕ → Call
  call_chdir : Name → Call
  call_fchdir : ℕ → Call
  call_getdents : ℕ → ℕ → Call
  call_create_file : Name → ℕ → ℕ → Call
  call_write_file : Name → Bytes → Call
  call_fd_times : ℕ → ℕ → ℕ → ℕ → Call
  call_path_times : ℕ → ℕ → Name → ℕ → ℕ → ℕ → Call
  call_mmap : Bool → ℕ → ℕ → ℕ → ℕ → ℕ → Call
  call_msync : Bytes → ℕ → ℕ → ℕ → ℕ → Call

-- A call without its result.
unfoldable pub run : Call → M (Unit {0})
run (call_openat fd path flags mode) = openat fd path flags mode >> pure tt
run (call_mknodat fd path mode) = mknodat fd path mode >> pure tt
run (call_mkdirat fd path mode) = mkdirat fd path mode
run (call_create_directory path mode backend) = create_directory_in path mode backend
run (call_unlinkat fd path flags) = unlinkat fd path flags
run (call_unmount path) = unmount path
run (call_symlinkat target fd path) = symlinkat target fd path
run (call_write fd vs) = fd_write fd vs >> pure tt
run (call_pwrite fd vs offset) = fd_pwrite fd vs offset >> pure tt
run (call_read fd vs) = fd_read fd vs >> pure tt
run (call_pread fd vs offset) = fd_pread fd vs offset >> pure tt
run (call_close fd) = fd_close fd
run (call_seek fd offset whence) = fd_seek fd offset whence >> pure tt
run (call_dup fd) = dup fd >> pure tt
run (call_dup3 old new flags) = dup3 old new flags >> pure tt
run (call_fcntl fd cmd) = fcntl64 fd cmd >> pure tt
run call_pipe = pipe >> pure tt
run (call_utimensat fd path times flags) = utimensat fd path times flags
run (call_fchmodat fd path mode flags) = fchmodat2 fd path mode flags
run (call_fchmod fd mode) = fchmod fd mode
run (call_truncate path size) = truncate64 path size
run (call_ftruncate fd size) = ftruncate64 fd size
run (call_fallocate fd offset len) = fallocate fd offset len
run (call_chdir path) = chdir path
run (call_fchdir fd) = fchdir fd
run (call_getdents fd count) = getdents64 fd count >> pure tt
run (call_create_file path mode backend) = create_file_in path mode backend >> pure tt
run (call_write_file path bytes) = write_whole path bytes >> pure tt
run (call_fd_times fd atim mtim flags) = fd_filestat_set_times fd atim mtim flags >> pure tt
run (call_path_times fd flags path atim mtim fst_flags) =
    path_filestat_set_times fd flags path atim mtim fst_flags >> pure tt
run (call_mmap room len prot flags fd offset) = mmap room len prot flags fd offset >> pure tt
run (call_msync region prot flags fd offset) = msync region prot flags fd offset

-- The call ends in the state, with a result or an error.
abbrev pub EndsIn : Out (Unit {0}) → Fs → Type 0
EndsIn m t = (m ≡ done tt t) ⊎ ((e : ℕ) × (m ≡ fail e t))

-- Calls lead from one state to another.
pub data Leads (s : Fs) : Fs → Type 0 where
  start : Leads s s
  next : {t u : Fs} → Leads s t → (c : Call) → EndsIn (run c t) u → Leads s u

without : {A : Type 0} (m : M A) → Keeps Always m → Keeps Always (m >> pure tt)
without m k = Keeps-then _ _ _ k (Keeps-Reads _ _ (Reads-pure tt))

Keeps-run : (c : Call) → Keeps Always (run c)
unfolding run
Keeps-run (call_openat fd path flags mode) = without _ (Keeps-openat fd path flags mode)
Keeps-run (call_mknodat fd path mode) = without _ (Keeps-mknodat fd path mode)
Keeps-run (call_mkdirat fd path mode) = Keeps-mkdirat fd path mode
Keeps-run (call_create_directory path mode backend) = Keeps-create_directory_in path mode backend
Keeps-run (call_unlinkat fd path flags) = Keeps-unlinkat fd path flags
Keeps-run (call_unmount path) = Keeps-unmount path
Keeps-run (call_symlinkat target fd path) = Keeps-symlinkat target fd path
Keeps-run (call_write fd vs) = without _ (Keeps-fd_write fd vs)
Keeps-run (call_pwrite fd vs offset) = without _ (Keeps-fd_pwrite fd vs offset)
Keeps-run (call_read fd vs) = without _ (Keeps-fd_read fd vs)
Keeps-run (call_pread fd vs offset) = without _ (Keeps-fd_pread fd vs offset)
Keeps-run (call_close fd) = Keeps-fd_close fd
Keeps-run (call_seek fd offset whence) = without _ (Keeps-fd_seek fd offset whence)
Keeps-run (call_dup fd) = without _ (Keeps-dup fd)
Keeps-run (call_dup3 old new flags) = without _ (Keeps-dup3 old new flags)
Keeps-run (call_fcntl fd cmd) = without _ (Keeps-fcntl64 fd cmd)
Keeps-run call_pipe = without _ Keeps-pipe
Keeps-run (call_utimensat fd path times flags) = Keeps-utimensat fd path times flags
Keeps-run (call_fchmodat fd path mode flags) = Keeps-fchmodat2 fd path mode flags
Keeps-run (call_fchmod fd mode) = Keeps-fchmod fd mode
Keeps-run (call_truncate path size) = Keeps-truncate64 path size
Keeps-run (call_ftruncate fd size) = Keeps-ftruncate64 fd size
Keeps-run (call_fallocate fd offset len) = Keeps-fallocate fd offset len
Keeps-run (call_chdir path) = Keeps-chdir path
Keeps-run (call_fchdir fd) = Keeps-fchdir fd
Keeps-run (call_getdents fd count) = without _ (Keeps-getdents64 fd count)
Keeps-run (call_create_file path mode backend) = without _ (Keeps-create_file_in path mode backend)
Keeps-run (call_write_file path bytes) = without _ (Keeps-write_whole path bytes)
Keeps-run (call_fd_times fd a m flags) = without _ (Keeps-fd_filestat_set_times fd a m flags)
Keeps-run (call_path_times fd flags path a m fst) =
    without _ (Keeps-path_filestat_set_times fd flags path a m fst)
Keeps-run (call_mmap room len prot flags fd offset) =
    without _ (Keeps-mmap room len prot flags fd offset)
Keeps-run (call_msync region prot flags fd offset) = Keeps-msync region prot flags fd offset

Leads-IsShaped : {s t : Fs} → IsShaped s → Leads s t → IsShaped t
Leads-IsShaped h start = h
Leads-IsShaped h (next {t} way c (inl e)) =
    subst Shaped e ((Keeps-run c).at t (Leads-IsShaped h way) tt)
Leads-IsShaped h (next {t} way c (inr (k, e))) =
    subst Shaped e ((Keeps-run c).at t (Leads-IsShaped h way) tt)

-- The start of an instance succeeds, and after it any sequence of the calls of `Call` leaves the tree in
-- shape, whatever their arguments and whether they succeed or fail: no name and no child stands twice
-- in a directory, every child has the directory as its parent, no directory is its own entry, and the
-- caches hold mount points only. The calls of `Call` do not include `renameat` and preloading.
pub reached-IsShaped :
    (host : Host) (t : Fs)
    → Leads (booted host) t
    → (boot (empty host) ≡ done tt (booted host)) × IsShaped t
reached-IsShaped host t way = (boot-eq host, Leads-IsShaped (booted-IsShaped host) way)

-- In every state that a sequence of the calls of `Call` reaches from the start of an instance, resolving
-- a path, from any descriptor and with its links followed, changes nothing, whether it succeeds or fails.
pub parse-Same :
    (host : Host) (t : Fs) (path : Name) (fd : ℕ)
    → Leads (booted host) t
    → Same t (parse_parent path fd t) × Same t (parse_file path fd true t)
parse-Same host t path fd way =
    let h = Leads-IsShaped (booted-IsShaped host) way in
    ((Reads-parse_parent path fd).at t h, (Reads-parse_file path fd true).at t h)
