-- ===== src/Syscalls/Mapping/Shared.antt =====
-- Shared mappings of a file of the memory backend.
use emscripten_memfswasm_wra.Base.{
  ◌∙◌, ℕ, ◌+◌, ◌-◌, ◌≤◌, ◌<◌, ◌≡◌, refl, ap, true, false, some, [], ◌∷◌, ◌++◌, length, take, drop,
  min, max, replicate, arith, bit_and, append-nil, length-take, length-drop, take_all,
  length-append, length-replicate,
}
use emscripten_memfswasm_wra.Posix.{o_accmode, o_rdwr, has}
use emscripten_memfswasm_wra.Memory.DataFile
use emscripten_memfswasm_wra.Memory.DataFile.{Bytes, max_size, off_t_min, fetched}
use emscripten_memfswasm_wra.Memory.DataFile.Laws.{
  after_write, read-eq, read-write, length-after_write,
}
use emscripten_memfswasm_wra.Store.{
  File, OpenFile, Fs, memory_file, data_file, done, load, load_open,
}
use emscripten_memfswasm_wra.Files.{as_ssize, read_impl, read_file}
use emscripten_memfswasm_wra.Syscalls.Io.{Ciovec}
use emscripten_memfswasm_wra.Syscalls.Io.Writing.{gather}
use emscripten_memfswasm_wra.Syscalls.Io.RoundTrip.{IsOpen, pwritten, pwrite-eq, get_open-table}
use emscripten_memfswasm_wra.Syscalls.Mapping.{
  mmap, msync, check_map_type, prot_write, map_type, map_shared, prot_exec,
}

-- A mapping for reading and writing: not executable, writable and shared.
abbrev pub IsShared : ℕ → ℕ → Type 0
IsShared prot flags =
    (has prot prot_exec ≡ false)
    × (has prot prot_write ≡ true)
    × (bit_and flags map_type ≡ map_shared)

pub mmap-eq :
    (s : Fs) (fd o : ℕ) (state : OpenFile) (n : File) (b bytes : Bytes) (len prot flags offset : ℕ)
    → IsOpen s fd o state n b
    → bit_and state.flags o_accmode ≡ o_rdwr
    → IsShared prot flags
    → 0 < len
    → length bytes ≤ max_size
    → DataFile.read len offset b ≡ fetched bytes
    → mmap true len prot flags fd offset s
      ≡ done (take (length bytes) bytes ++ replicate (len - length bytes) 0) s
unfolding mmap check_map_type load load_open read_file read_impl as_ssize
mmap-eq s fd o state n b bytes len prot flags offset h rw_mode shared pos hb e =
    ground (arith, h.entry, h.opened, h.file, h.memory, rw_mode, shared, e)

module _ (s : Fs) (fd o : ℕ) (state : OpenFile) (n : File) (b : Bytes) (prot flags offset : ℕ)
    (h : IsOpen s fd o state n b) (mode : bit_and state.flags o_accmode ≡ o_rdwr)
    (shared : IsShared prot flags) (hb : length b ≤ max_size) where
  -- A shared mapping for reading and writing, of a file of the memory backend that is open for both,
  -- is filled with the bytes of the file from the offset on, and with zeros behind its end. The region
  -- has the length that was asked for, and nothing else changes, if there is room and the range does
  -- not wrap.
  pub mmap_fills :
      (len : ℕ)
      → 0 < len
      → offset + len < off_t_min
      → (mmap true len prot flags fd offset s
          ≡ done
              (take len (drop offset b) ++ replicate (len - length (take len (drop offset b))) 0)
              s)
        × (length
              (take len (drop offset b) ++ replicate (len - length (take len (drop offset b))) 0)
            ≡ len)
  mmap_fills len pos range =
      let bytes = take len (drop offset b) in
      let l : length bytes ≡ min len (length (drop offset b)) = length-take len (drop offset b) in
      let d : length (drop offset b) ≡ length b - offset = length-drop offset b in
      let whole : take (length bytes) bytes ≡ bytes = take_all (length bytes) bytes (omega arith) in
      (
        mmap-eq s fd o state n b bytes len prot flags offset h mode shared pos (omega arith)
              (read-eq len offset b hb range)
            ∙ ap (λ z. done (z ++ replicate (len - length bytes) 0) s) whole,
        length-append bytes (replicate (len - length bytes) 0)
            ∙ omega (arith, length-replicate {A = ℕ} (len - length bytes) 0),
      )

  -- Writing back a region of a shared mapping for reading and writing succeeds, and mapping the range
  -- again gives the same bytes. The file then reaches to the end of the region, also where it ended
  -- before. The region has at least one byte, and the file fits into a vector before and after.
  pub mmap-msync :
      (region : Bytes)
      → 0 < length region
      → offset + length region ≤ max_size
      → (t : Fs) × (msync region prot flags fd offset s ≡ done tt t)
        × (mmap true (length region) prot flags fd offset t ≡ done region t)
        × (length (after_write region offset b) ≡ max (length b) (offset + length region))
        × (t.files state.file
            ≡ some (record n {
              body = data_file (memory_file (after_write region offset b));
              mtime = s.host.date_now s.calls;
            }))
  unfolding msync
  mmap-msync region pos fits =
      let c = after_write region offset b in
      let v : Ciovec = record { is_null = false; bytes = region } in
      let g : gather (v ∷ []) ≡ region = append-nil region in
      let w = pwrite-eq s fd o state n b v [] offset h hb (rw g fits) (ground arith) (rw g pos) in
      let n' : File = record n {
        body = data_file (memory_file c);
        mtime = s.host.date_now s.calls;
      } in
      let t = pwritten s state.file n c in
      let open' : IsOpen t fd o state n' c = record {
        entry = get_open-table fd o s t refl h.entry;
        opened = h.opened;
        file = ground arith;
        memory = refl;
      } in
      let z : length region - length region ≡ 0 = omega arith in
      let whole : take (length region) region ≡ region =
        take_all (length region) region (omega arith) in
      (
        t,
        ground (arith, rw g at w, shared),
        mmap-eq t fd o state n' c region (length region) prot flags offset open' mode shared pos
              (omega arith) (read-write region offset b hb fits)
            ∙ rw (whole, z) (ap (λ r. done r t) (append-nil region)),
        length-after_write region offset b,
        ground arith,
      )
