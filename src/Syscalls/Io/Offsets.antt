-- ===== src/Syscalls/Io/Offsets.antt =====
-- `fd_pwrite` and `fd_pread` at offsets that are negative as `off_t`.
use emscripten_memfswasm_wra.Base.{
  ℕ, ◌+◌, ◌%◌, ◌≤◌, ◌<◌, ◌≡◌, sym, subst, ◌⊎◌, inl, inr, false, [], ◌∷◌, length, take, drop,
  length-take, length-drop, arith,
}
use emscripten_memfswasm_wra.Memory.DataFile
use emscripten_memfswasm_wra.Memory.DataFile.{
  Bytes, max_size, off_t_min, off_t_mod, size_t_mod, Written, Fetched, written, fetched, overwrite,
}
use emscripten_memfswasm_wra.Memory.DataFile.Bounds.{write-negative, read-negative}
use emscripten_memfswasm_wra.Store.{
  File, OpenFile, Fs, done, fault, load, load_open, store, update_mtime, date_now, set_mtime,
}
use emscripten_memfswasm_wra.Files.{
  read_impl, read_file, write_impl, write_file, store_data, as_ssize,
}
use emscripten_memfswasm_wra.Syscalls.Io.{
  write_loop, read_loop, write_at_offset, read_at_offset, write_start, advance, add_will_overflow,
  fd_pwrite, fd_pread,
}
use emscripten_memfswasm_wra.Syscalls.Io.RoundTrip.{IsOpen, pwritten, pread-eq}

module _ (s : Fs) (fd o : ℕ) (state : OpenFile) (n : File) (b : Bytes) where
  written_there :
      (v : Bytes) (offset : ℕ) {b' : Bytes}
      → IsOpen s fd o state n b
      → DataFile.write v offset b ≡ written b'
      → offset < off_t_mod
      → 0 < length v
      → length v ≤ max_size
      → fd_pwrite fd (record { is_null = false; bytes = v } ∷ []) offset s
        ≡ done (length v) (pwritten s state.file n b')
  unfolding fd_pwrite write_at_offset write_start write_loop advance add_will_overflow load
      load_open store update_mtime date_now set_mtime write_file write_impl store_data as_ssize
  written_there v offset h w high hv hm =
      let m : (offset + 0) % off_t_mod ≡ offset = omega arith in
      let k : (0 + length v) % size_t_mod ≡ length v = omega arith in
      ground (arith, w, m, k, h.entry, h.opened, h.file, h.memory)

  written_outside :
      (v : Bytes) (offset : ℕ)
      → IsOpen s fd o state n b
      → DataFile.write v offset b ≡ Written.out_of_bounds
      → offset < off_t_mod
      → fd_pwrite fd (record { is_null = false; bytes = v } ∷ []) offset s ≡ fault
  unfolding fd_pwrite write_at_offset write_start write_loop add_will_overflow load load_open
      write_file write_impl store_data
  written_outside v offset h w high =
      let m : (offset + 0) % off_t_mod ≡ offset = omega arith in
      ground (arith, w, m, h.entry, h.opened, h.file, h.memory)

  read_there :
      (len offset : ℕ)
      → IsOpen s fd o state n b
      → DataFile.read len offset b ≡ fetched (take len (drop (offset % size_t_mod) b))
      → offset < off_t_mod
      → offset % size_t_mod + len ≤ length b
      → length b ≤ max_size
      → fd_pread fd (record { is_null = false; len = len } ∷ []) offset s
        ≡ done (take len (drop (offset % size_t_mod) b) ∷ [], len) s
  read_there len offset h r high inside hb =
      let found : Bytes = take len (drop (offset % size_t_mod) b) in
      let l : length found ≡ len = omega (
        arith,
        length-take len (drop (offset % size_t_mod) b),
        length-drop (offset % size_t_mod) b,
      ) in
      subst
        (λ k.
          fd_pread fd (record { is_null = false; len = k } ∷ []) offset s ≡ done (found ∷ [], k) s)
        l
        (pread-eq s fd o state n b found offset h (omega arith) high
          (subst (λ k. DataFile.read k offset b ≡ fetched found) (sym l) r))

  read_outside :
      (len offset : ℕ)
      → IsOpen s fd o state n b
      → DataFile.read len offset b ≡ Fetched.out_of_bounds
      → offset < off_t_mod
      → fd_pread fd (record { is_null = false; len = len } ∷ []) offset s ≡ fault
  unfolding fd_pread read_at_offset read_loop load load_open read_file read_impl
  read_outside len offset h r high =
      let m : (offset + 0) % off_t_mod ≡ offset = omega arith in
      ground (arith, r, m, h.entry, h.opened, h.file, h.memory)

-- Through a descriptor on a file of the memory backend, a `fd_pwrite` or `fd_pread` of at least one byte
-- at an offset that is negative as an `off_t` is not refused. It works at the index that is the offset
-- modulo 2^32: if the range from there is in the file, the transfer succeeds, and writes or returns those
-- bytes, and else it leaves the vector. The file is within the limits of a vector, and so are the bytes to
-- write.
pub negative_transfer :
    (s : Fs) (fd o : ℕ) (state : OpenFile) (n : File) (b : Bytes) (v : Bytes) (len offset : ℕ)
    → IsOpen s fd o state n b
    → length b ≤ max_size
    → off_t_min ≤ offset
    → offset < off_t_mod
    → 0 < length v
    → length v ≤ max_size
    → 0 < len
    → len < size_t_mod
    → (((offset % size_t_mod + length v ≤ length b)
          × (fd_pwrite fd (record { is_null = false; bytes = v } ∷ []) offset s
              ≡ done (length v) (pwritten s state.file n (overwrite (offset % size_t_mod) v b))))
        ⊎ ((length b < offset % size_t_mod + length v)
            × (fd_pwrite fd (record { is_null = false; bytes = v } ∷ []) offset s ≡ fault)))
      × (((offset % size_t_mod + len ≤ length b)
            × (fd_pread fd (record { is_null = false; len = len } ∷ []) offset s
                ≡ done (take len (drop (offset % size_t_mod) b) ∷ [], len) s))
          ⊎ ((length b < offset % size_t_mod + len)
              × (fd_pread fd (record { is_null = false; len = len } ∷ []) offset s ≡ fault)))
negative_transfer s fd o state n b v len offset h hb low high hv hm hl hs = (
  elim (write-negative v offset b low high hv hm) [
    | inl (p, w) ↦ inl (p, written_there s fd o state n b v offset h w high hv hm)
    | inr (p, w) ↦ inr (p, written_outside s fd o state n b v offset h w high)
  ],
  elim (read-negative len offset b low high hb hl hs) [
    | inl (p, r) ↦ inl (p, read_there s fd o state n b len offset h r high p hb)
    | inr (p, r) ↦ inr (p, read_outside s fd o state n b len offset h r high)
  ],
)
