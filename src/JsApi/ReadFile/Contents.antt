-- ===== src/JsApi/ReadFile/Contents.antt =====
-- `_wasmfs_read_file` with a C library whose functions make the system calls.
use emscripten_memfswasm_wra.Base.{
  ◌∙◌, ℕ, ◌+◌, ◌/◌, suc, ◌≤◌, ◌≡◌, refl, ap, true, false, none, some, List, [], ◌∷◌, length,
  take_all, arith,
}
use emscripten_memfswasm_wra.Base.Names.{Name}
use emscripten_memfswasm_wra.Posix.{o_rdonly, at_fdcwd, has}
use emscripten_memfswasm_wra.Memory.DataFile
use emscripten_memfswasm_wra.Memory.DataFile.{Bytes, max_size, fetched}
use emscripten_memfswasm_wra.Memory.DataFile.Laws.{read-eq}
use emscripten_memfswasm_wra.Store.{
  FileId, File, Fs, memory_file, data_file, done, value, error, Out, Result, pure, ◌>>=◌, attempt,
  load,
}
use emscripten_memfswasm_wra.Store.Bind.{bind-done}
use emscripten_memfswasm_wra.Files.{get_size}
use emscripten_memfswasm_wra.Directory.{get_child}
use emscripten_memfswasm_wra.Paths.{
  parse_parent, parse_file, file_with, parent_with, child_with, follow, link_fuel, get_base_dir,
  get_file_at,
}
use emscripten_memfswasm_wra.Table.{slot, free_slot}
use emscripten_memfswasm_wra.Table.Laws.{slot-put}
use emscripten_memfswasm_wra.Syscalls.Io.{fd_close, fd_pread}
use emscripten_memfswasm_wra.Syscalls.Io.RoundTrip.{pread-eq}
use emscripten_memfswasm_wra.Syscalls.Metadata.{Stat, stat64, newfstatat}
use emscripten_memfswasm_wra.Syscalls.Open.{openat, perm_read}
use emscripten_memfswasm_wra.Syscalls.Open.Mkdir.{IsPlain}
use emscripten_memfswasm_wra.Syscalls.Open.Reading.{
  fd, opened, closed_again, openat-IsOpen, close-opened,
}
use emscripten_memfswasm_wra.JsApi.{first_buffer}
use emscripten_memfswasm_wra.JsApi.ReadFile.{Libc, read_whole}

-- The result that `attempt` makes of one call's outcome.
abbrev attempted : {A : Type 0} → Fs → Out A → Out (Result A)
attempted t o = attempt (λ _. o) t

abbrev pub first_bytes : Result (List Bytes × ℕ) → Result Bytes
first_bytes (value (bytes, n)) = value (first_buffer bytes)
first_bytes (error e) = error e

-- The functions of the C library are the system calls of the same names.
pub record IsSystem (libc : Libc) : Type 0 where
  pub stat_eq : (path : Name) → libc.stat path ≡ attempt (stat64 path)
  pub open_eq :
      (path : Name) (flags : ℕ) → libc.open_path path flags ≡ attempt (openat at_fdcwd path flags 0)
  pub pread_eq :
      (fd count offset : ℕ)
      → libc.pread fd count offset ≡ (do
        r ← attempt (fd_pread fd (record { is_null = false; len = count } ∷ []) offset)
        pure (first_bytes r))
  pub close_eq : (fd : ℕ) → libc.close fd ≡ attempt (fd_close fd)

module _ (s : Fs) (dir c : FileId) (m : File) (b : Bytes) (name path : Name) (plain : IsPlain name)
    (parsed : parse_parent path at_fdcwd s ≡ done (dir, name) s)
    (found : get_child dir name s ≡ done (some c) s) (there : s.files c ≡ some m)
    (memory : m.body ≡ data_file (memory_file b)) (readable : has m.mode perm_read ≡ true)
    (fits : length b ≤ max_size) where
  child_found : (fuel r : ℕ) → child_with (follow (suc fuel)) dir name true r s ≡ done (c, r) s
  unfolding child_with follow load
  child_found fuel r = ground (arith, found, there, memory)

  parse_file-found : parse_file path at_fdcwd true s ≡ done c s
  unfolding parse_parent parse_file file_with
  parse_file-found =
      let (base, s1, hb, k) = bind-done (get_base_dir at_fdcwd s) _ parsed in
      let (way, s2, hp, last) = bind-done (parent_with (follow link_fuel) path base 0 s1) _ k in
      let child = child_found 40 way.2 in ground (arith, hb, hp, last, child)

  abbrev status : Stat
  status = record {
    size = length b;
    dev = 1;
    mode = m.mode;
    ino = c;
    nlink = 1;
    uid = 0;
    gid = 0;
    rdev = 0;
    blocks = (length b + 511) / 512;
    blksize = 4096;
    atim = m.atime;
    mtim = m.mtime;
    ctim = m.ctime;
  }

  stat-found : stat64 path s ≡ done status s
  unfolding stat64 newfstatat get_file_at get_size load has
  stat-found = let p = parse_file-found in ground (arith, p, there, memory)

  pread-opened :
      fd_pread
        (fd s dir c m b name path plain parsed found there memory readable)
        (record { is_null = false; len = length b } ∷ [])
        0
        (opened s dir c m b name path plain parsed found there memory readable)
      ≡ done
          (b ∷ [], length b)
          (opened s dir c m b name path plain parsed found there memory readable)
  pread-opened =
      let o = openat-IsOpen s dir c m b name path plain parsed found there memory readable in
      let whole : DataFile.read (length b) 0 b ≡ fetched b =
        read-eq (length b) 0 b fits (omega arith)
        ∙ ap fetched (take_all (length b) b (omega arith)) in
      pread-eq _ _ _ _ m b b 0 o.1 fits (omega arith) whole

  -- `_wasmfs_read_file` returns the size and all the bytes of a file, changes no file, and leaves the
  -- slot free that its descriptor had, where the functions of the C library are the system calls of
  -- the same names, the file is in memory, may be read and fits into a vector, its name is neither `.`
  -- nor `..` nor too long, and looking up the path changes nothing.
  pub read_whole_contents :
      (libc : Libc)
      → IsSystem libc
      → (u : Fs) × (read_whole libc path s ≡ done (length b, b) u)
        × (u.files ≡ s.files)
        × (slot u.table (free_slot s.table) ≡ none)
  unfolding read_whole
  read_whole_contents libc system =
      let at_fd = fd s dir c m b name path plain parsed found there memory readable in
      let now = opened s dir c m b name path plain parsed found there memory readable in
      let stat : libc.stat path s ≡ done (value status) s =
        ap (λ f. f s) (system.stat_eq path) ∙ ap (attempted s) stat-found in
      let open_path : libc.open_path path o_rdonly s ≡ done (value at_fd) now =
        ap (λ f. f s) (system.open_eq path o_rdonly)
        ∙ ap (attempted s)
            (openat-IsOpen s dir c m b name path plain parsed found there memory readable).0 in
      let pread : libc.pread at_fd (length b) 0 now ≡ done (value b) now =
        ap (λ f. f now) (system.pread_eq at_fd (length b) 0) ∙ ground (arith, pread-opened) in
      let close : libc.close at_fd now
          ≡ done (value tt)
              (closed_again s dir c m b name path plain parsed found there memory readable) =
        ap (λ f. f now) (system.close_eq at_fd)
        ∙ ap (attempted now)
            (close-opened s dir c m b name path plain parsed found there memory readable) in
      (
        closed_again s dir c m b name path plain parsed found there memory readable,
        ground (arith, stat, open_path, pread, close),
        refl,
        slot-put at_fd at_fd none now.table ∙ ground arith,
      )
