-- ===== src/Syscalls/Io/Seeking.antt =====
-- The position of an open file: `__wasi_fd_seek`, and `__wasi_fd_read` after it.
use emscripten_memfswasm_wra.Base.{
  ℕ, ◌+◌, ◌%◌, ◌^◌, ◌≤◌, ◌<◌, ◌≡◌, refl, true, false, some, [], ◌∷◌, length, take, drop, arith,
  length-take,
}
use emscripten_memfswasm_wra.Memory.DataFile
use emscripten_memfswasm_wra.Memory.DataFile.{
  Bytes, max_size, off_t_min, off_t_mod, size_t_mod, fetched,
}
use emscripten_memfswasm_wra.Memory.DataFile.Laws.{read-eq}
use emscripten_memfswasm_wra.Store.{
  FileId, File, OpenFile, Fs, done, update, load, load_open, store_open,
}
use emscripten_memfswasm_wra.Files.{as_ssize, read_impl, read_file}
use emscripten_memfswasm_wra.Syscalls.Io.{
  read_loop, read_at_offset, advance, set_position, seek_set, seek_target, fd_seek, fd_read,
}
use emscripten_memfswasm_wra.Syscalls.Io.Writing.{Holds}
use emscripten_memfswasm_wra.Syscalls.Io.RoundTrip.{IsOpen, get_open-table}

-- The state with the position of an open file set.
abbrev pub at_position : Fs → ℕ → OpenFile → ℕ → Fs
at_position s o state p = record s {
  opens = update s.opens o (some (record state { position = p }));
}

seek-eq :
    (s : Fs) (fd o : ℕ) (state : OpenFile) (n : File) (b : Bytes) (p : ℕ)
    → IsOpen s fd o state n b
    → n.seekable ≡ true
    → p < off_t_min
    → fd_seek fd p seek_set s ≡ done p (at_position s o state p)
unfolding fd_seek seek_target set_position load load_open store_open
seek-eq s fd o state n b p h seekable hp = ground (arith, h.entry, h.opened, h.file, seekable)

read_file-fetched :
    (s : Fs) (f : FileId) (n : File) (b bytes : Bytes) (len o : ℕ)
    → Holds s f n b
    → length bytes < 2 ^ 31
    → DataFile.read len o b ≡ fetched bytes
    → read_file f len o s ≡ done (bytes, length bytes) s
unfolding read_file load read_impl as_ssize
read_file-fetched s f n b bytes len o h small e = ground arith

fd_read-eq :
    (s : Fs) (fd o : ℕ) (state : OpenFile) (n : File) (b : Bytes) (len : ℕ)
    → IsOpen s fd o state n b
    → n.seekable ≡ true
    → length b ≤ max_size
    → state.position + len < off_t_min
    → len < 2 ^ 31
    → fd_read fd (record { is_null = false; len = len } ∷ []) s
      ≡ done
          (take len (drop state.position b) ∷ [], length (take len (drop state.position b)))
          (at_position s o state (state.position + length (take len (drop state.position b))))
unfolding fd_read read_at_offset read_loop advance set_position load load_open store_open
fd_read-eq s fd o state n b len h seekable hb hp hl =
    let bytes = take len (drop state.position b) in
    let l : length bytes ≤ len = omega (arith, length-take len (drop state.position b)) in
    let m : (state.position + 0) % off_t_mod ≡ state.position = omega arith in
    let k : (0 + length bytes) % size_t_mod ≡ length bytes = omega arith in
    let j : (state.position + length bytes) % off_t_mod ≡ state.position + length bytes =
      omega arith in
    let r =
      read_file-fetched s state.file n b bytes len state.position (h.file, h.memory) (omega arith)
        (read-eq len state.position b hb hp) in
    ground (arith, r, m, k, j, h.entry, h.opened, h.file, seekable)

-- On a seekable file of the memory backend, a read of less than 2^31 bytes after a seek to a position
-- returns the bytes from there, as many as are asked for or are left, leaves the position behind
-- them, and changes no file. Neither the position nor the end of the range is negative as an `off_t`.
pub seek_read :
    (s : Fs) (fd o : ℕ) (state : OpenFile) (n : File) (b : Bytes) (p len : ℕ)
    → IsOpen s fd o state n b
    → n.seekable ≡ true
    → length b ≤ max_size
    → p + len < off_t_min
    → len < 2 ^ 31
    → (t : Fs) × (u : Fs) × (fd_seek fd p seek_set s ≡ done p t)
      × (fd_read fd (record { is_null = false; len = len } ∷ []) t
          ≡ done (take len (drop p b) ∷ [], length (take len (drop p b))) u)
      × (u.opens o ≡ some (record state { position = p + length (take len (drop p b)) }))
      × (u.files ≡ s.files)
seek_read s fd o state n b p len h seekable hb hp hl =
    let t = at_position s o state p in
    let moved : OpenFile = record state { position = p } in
    (
      t,
      at_position t o moved (p + length (take len (drop p b))),
      seek-eq s fd o state n b p h seekable (omega arith),
      fd_read-eq t fd o moved n b len
          (record {
            entry = get_open-table fd o s t refl h.entry;
            opened = ground arith;
            file = h.file;
            memory = h.memory;
          })
          seekable hb hp hl,
      ground arith,
      refl,
    )
