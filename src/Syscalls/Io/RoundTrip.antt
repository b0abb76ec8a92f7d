-- ===== src/Syscalls/Io/RoundTrip.antt =====
-- `fd_pwrite` and `fd_pread` through one descriptor, on a file of the memory backend.
use emscripten_memfswasm_wra.Base.{
  ℕ, ◌+◌, ◌%◌, ◌≤◌, ◌<◌, ◌≡◌, refl, false, some, List, [], ◌∷◌, length, arith,
}
use emscripten_memfswasm_wra.Memory.DataFile
use emscripten_memfswasm_wra.Memory.DataFile.{
  Bytes, max_size, off_t_mod, size_t_mod, fetched, written,
}
use emscripten_memfswasm_wra.Memory.DataFile.Laws.{after_write, read-write}
use emscripten_memfswasm_wra.Store.{
  FileId, File, OpenFile, Fs, memory_file, data_file, done, update, load, store, load_open,
  date_now, set_mtime, update_mtime,
}
use emscripten_memfswasm_wra.Files.{as_ssize, read_impl, read_file}
use emscripten_memfswasm_wra.Paths.{get_open}
use emscripten_memfswasm_wra.Table.{get_entry}
use emscripten_memfswasm_wra.Syscalls.Io.{
  Ciovec, read_loop, write_at_offset, read_at_offset, write_start, advance, fd_pwrite, fd_pread,
}
use emscripten_memfswasm_wra.Syscalls.Io.Writing.{Holds, gather, Readable, write_loop-gather}

-- The descriptor is open, on the file `n`, which holds `b` in memory.
pub record IsOpen (s : Fs) (fd o : ℕ) (state : OpenFile) (n : File) (b : Bytes) : Type 0 where
  pub entry : get_open fd s ≡ done o s
  pub opened : s.opens o ≡ some state
  pub file : s.files state.file ≡ some n
  pub memory : n.body ≡ data_file (memory_file b)

-- The state after a `fd_pwrite` of bytes: the file holds them and has a new time.
abbrev pub pwritten : Fs → FileId → File → Bytes → Fs
pwritten s f n b = record s {
  files =
      update (update s.files f (some (record n { body = data_file (memory_file b) }))) f
        (some (record n { body = data_file (memory_file b); mtime = s.host.date_now s.calls }));
  calls = s.calls + 1;
}

read_file-memory :
    (s : Fs) (f : FileId) (n : File) (b bytes : Bytes) (o : ℕ)
    → Holds s f n b
    → length bytes ≤ max_size
    → DataFile.read (length bytes) o b ≡ fetched bytes
    → read_file f (length bytes) o s ≡ done (bytes, length bytes) s
unfolding read_file load read_impl as_ssize
read_file-memory s f n b bytes o h hb e = ground arith

pub pwrite-eq :
    (s : Fs) (fd o : ℕ) (state : OpenFile) (n : File) (b : Bytes) (v : Ciovec) (vs : List Ciovec)
    (offset : ℕ)
    → IsOpen s fd o state n b
    → length b ≤ max_size
    → offset + length (gather (v ∷ vs)) ≤ max_size
    → Readable (v ∷ vs)
    → 0 < length (gather (v ∷ vs))
    → fd_pwrite fd (v ∷ vs) offset s
      ≡ done
          (length (gather (v ∷ vs)))
          (pwritten s state.file n (after_write (gather (v ∷ vs)) offset b))
unfolding fd_pwrite write_at_offset write_start advance load load_open store update_mtime date_now
    set_mtime
pwrite-eq s fd o state n b v vs offset h hb ho hv pos =
    let e : offset + 0 ≡ offset = omega arith in
    let z : 0 + length (gather (v ∷ vs)) ≡ length (gather (v ∷ vs)) = omega arith in
    let w =
      write_loop-gather state.file offset 0 v vs s n b (h.file, h.memory) hb (omega arith) hv in
    ground (arith, rw (e, z) at w, h.entry, h.opened, h.file)

-- A descriptor is looked up in the table alone.
pub get_open-table :
    (fd o : ℕ) (s t : Fs) → t.table ≡ s.table → get_open fd s ≡ done o s → get_open fd t ≡ done o t
unfolding get_open get_entry
get_open-table fd o s t e h = ground arith

pub pread-eq :
    (s : Fs) (fd o : ℕ) (state : OpenFile) (n : File) (b bytes : Bytes) (offset : ℕ)
    → IsOpen s fd o state n b
    → length bytes ≤ max_size
    → offset < off_t_mod
    → DataFile.read (length bytes) offset b ≡ fetched bytes
    → fd_pread fd (record { is_null = false; len = length bytes } ∷ []) offset s
      ≡ done (bytes ∷ [], length bytes) s
unfolding fd_pread read_at_offset read_loop advance load load_open
pread-eq s fd o state n b bytes offset h hb ho e =
    let m : (offset + 0) % off_t_mod ≡ offset = omega arith in
    let k : (0 + length bytes) % size_t_mod ≡ length bytes = omega arith in
    let r = read_file-memory s state.file n b bytes offset (h.file, h.memory) hb e in
    ground (arith, r, m, k, h.entry, h.opened, h.file)

-- Through an open descriptor on a file of the memory backend, bytes written at an offset from one or
-- more buffers are what a read of as many bytes at that offset returns, if there is at least one
-- byte, no buffer with bytes is a null pointer, and the file fits into a vector before and after.
pub pread-pwrite :
    (s : Fs) (fd o : ℕ) (state : OpenFile) (n : File) (b : Bytes) (v : Ciovec) (vs : List Ciovec)
    (offset : ℕ)
    → IsOpen s fd o state n b
    → length b ≤ max_size
    → offset + length (gather (v ∷ vs)) ≤ max_size
    → Readable (v ∷ vs)
    → 0 < length (gather (v ∷ vs))
    → (t : Fs) × (fd_pwrite fd (v ∷ vs) offset s ≡ done (length (gather (v ∷ vs))) t)
      × (fd_pread fd (record { is_null = false; len = length (gather (v ∷ vs)) } ∷ []) offset t
          ≡ done (gather (v ∷ vs) ∷ [], length (gather (v ∷ vs))) t)
pread-pwrite s fd o state n b v vs offset h hb ho hv pos =
    let g = gather (v ∷ vs) in
    let c = after_write g offset b in
    let t = pwritten s state.file n c in
    (
      t,
      pwrite-eq s fd o state n b v vs offset h hb ho hv pos,
      pread-eq t fd o state
          (record n { body = data_file (memory_file c); mtime = s.host.date_now s.calls }) c g
          offset
          (record {
            entry = get_open-table fd o s t refl h.entry;
            opened = h.opened;
            file = ground arith;
            memory = refl;
          })
          (omega arith) (omega arith) (read-write g offset b hb ho),
    )
