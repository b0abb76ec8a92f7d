-- ===== src/Syscalls/Metadata/Sizes.antt =====
-- `ftruncate64` and `fallocate` on a file of the memory backend, and what a read then returns.
use emscripten_memfswasm_wra.Base.{
  ℕ, ◌+◌, ◌-◌, ◌%◌, ◌≤◌, ◌<◌, ◌≡◌, ◌⊎◌, inl, inr, max, refl, ap, ◌∙◌, true, false, [], ◌∷◌, ◌++◌,
  length, take, replicate, take_all, append-nil, leb, ltb, arith, subst, Bool-cases, if◌then◌else◌,
  length-replicate, length-append,
}
use native.Mathlib.Decide.{dec_lt}
use emscripten_memfswasm_wra.Posix.{einval, ebadf, has}
use emscripten_memfswasm_wra.Memory.DataFile
use emscripten_memfswasm_wra.Memory.DataFile.{
  Bytes, max_size, off_t_min, off_t_mod, size_t_mod, resize, fetched, sized,
}
use emscripten_memfswasm_wra.Memory.DataFile.Laws.{length-resize, read-eq}
use emscripten_memfswasm_wra.Store.{
  File, OpenFile, Fs, memory_file, data_file, done, fail, load, store, load_open,
}
use emscripten_memfswasm_wra.Files.{set_size, set_size_impl, store_data, get_size}
use emscripten_memfswasm_wra.Syscalls.Open.{perm_write}
use emscripten_memfswasm_wra.Syscalls.Io.{fd_pread}
use emscripten_memfswasm_wra.Syscalls.Io.Writing.{with_bytes}
use emscripten_memfswasm_wra.Syscalls.Io.RoundTrip.{IsOpen, get_open-table, pread-eq}
use emscripten_memfswasm_wra.Syscalls.Metadata.{do_truncate, ftruncate64, fallocate}

module _ (s : Fs) (fd o : ℕ) (state : OpenFile) (n : File) (b : Bytes)
    (h : IsOpen s fd o state n b) where
  set_size-memory :
      (size : ℕ)
      → size ≤ max_size
      → set_size state.file size s ≡ done tt (with_bytes s state.file n (resize size b))
  unfolding set_size set_size_impl store_data load store DataFile.set_size
  set_size-memory size hs =
      let m : size % size_t_mod ≡ size = omega arith in ground (arith, m, h.file, h.memory)

  -- A descriptor on a file of a size reads all of it back.
  pread_all :
      (c : Bytes)
      → length c ≤ max_size
      → fd_pread fd
          (record { is_null = false; len = length c } ∷ [])
          0
          (with_bytes s state.file n c)
        ≡ done (c ∷ [], length c) (with_bytes s state.file n c)
  pread_all c hc =
      let t = with_bytes s state.file n c in
      let m : File = record n { body = data_file (memory_file c) } in
      let opened : IsOpen t fd o state m c = record {
        entry = get_open-table fd o s t refl h.entry;
        opened = h.opened;
        file = ground arith;
        memory = refl;
      } in
      pread-eq t fd o state m c c 0 opened hc (omega arith)
        (read-eq (length c) 0 c hc (omega arith) ∙ ap fetched (take_all (length c) c (omega arith)))

  -- Through a descriptor on a file of the memory backend that may be written, `ftruncate64` to a size
  -- within the limits of a vector succeeds. A read of that many bytes from the start then returns all of
  -- them: the bytes of the file up to the size, and zeros past its old end. If the file may not be
  -- written, the call is refused with `EINVAL`, and nothing changes.
  pub ftruncate_read :
      (size : ℕ)
      → size ≤ max_size
      → ((has n.mode perm_write ≡ true)
          × (t : Fs) × (ftruncate64 fd size s ≡ done tt t)
          × (fd_pread fd (record { is_null = false; len = size } ∷ []) 0 t
              ≡ done ((take size b ++ replicate (size - length b) 0) ∷ [], size) t))
        ⊎ ((has n.mode perm_write ≡ false) × (ftruncate64 fd size s ≡ fail einval s))
  unfolding ftruncate64 do_truncate load load_open resize
  ftruncate_read size hs = elim (Bool-cases (has n.mode perm_write)) [
    | inl w ↦
        let c = resize size b in
        let low : leb off_t_min size ≡ false = ground arith in
        let e = set_size-memory size hs in
        let l = length-resize size b in
        inl (
          w,
          with_bytes s state.file n c,
          ground (arith, w, low, e, h.entry, h.opened, h.file, h.memory),
          subst
              (λ k.
                fd_pread fd (record { is_null = false; len = k } ∷ []) 0
                  (with_bytes s state.file n c)
                ≡ done (c ∷ [], k) (with_bytes s state.file n c))
              l (pread_all c (omega (arith, l))),
        )
    | inr w ↦ inr (w, ground (arith, w, h.entry, h.opened, h.file, h.memory))
  ]

  -- The file with zeros up to a size, if that is not there already.
  abbrev padded : ℕ → Bytes
  padded size = b ++ replicate (size - length b) 0

  length-padded : (size : ℕ) → length (padded size) ≡ max (length b) size
  length-padded size = omega (
    arith,
    length-append b (replicate (size - length b) 0),
    length-replicate {A = ℕ} (size - length b) 0,
  )

  -- The state after the file was made as long as a size.
  abbrev grown : ℕ → Fs
  grown size = if ltb (length b) size then with_bytes s state.file n (padded size) else s

  set_size-padded :
      (size : ℕ)
      → length b < size
      → size ≤ max_size
      → set_size state.file size s ≡ done tt (with_bytes s state.file n (padded size))
  unfolding resize
  set_size-padded size p hs = rw (take_all size b (omega arith)) at (set_size-memory size hs)

  pread_grown :
      (size : ℕ)
      → length b ≤ max_size
      → size ≤ max_size
      → fd_pread fd (record { is_null = false; len = length (padded size) } ∷ []) 0 (grown size)
        ≡ done (padded size ∷ [], length (padded size)) (grown size)
  pread_grown size hb hs = elim (dec_lt (length b) size) [
    | yes p ↦
        let q : ltb (length b) size ≡ true = ground arith in
        rw q (pread_all (padded size) (omega (arith, length-padded size)))
    | no p ↦
        let q : ltb (length b) size ≡ false = ground arith in
        let z : size - length b ≡ 0 = omega arith in
        let same : padded size ≡ b = rw z (append-nil b) in
        rw (q, same)
          (pread-eq s fd o state n b b 0 h hb (omega arith) (
            read-eq (length b) 0 b hb (omega arith)
            ∙ ap fetched (take_all (length b) b (omega arith))))
  ]

  allocated :
      (offset len : ℕ)
      → offset + len ≤ max_size
      → 0 < len
      → has n.mode perm_write ≡ true
      → fallocate fd offset len s ≡ done tt (grown (offset + len))
  unfolding fallocate load load_open get_size
  allocated offset len ho pos w =
      let m : (offset + len) % off_t_mod ≡ offset + len = omega arith in
      elim (dec_lt (length b) (offset + len)) [
        | yes p ↦
            let e = set_size-padded (offset + len) p ho in
            ground (arith, w, m, e, h.entry, h.opened, h.file, h.memory)
        | no p ↦ ground (arith, w, m, h.entry, h.opened, h.file, h.memory)
      ]

  -- On a range of at least one byte that ends within the limits of a vector, as the file does,
  -- `fallocate` of a file that may be written succeeds and never shortens the file: a read from the start
  -- then returns all its old bytes, and zeros behind them if the range ends later. A file that may not be
  -- written is refused with `EBADF`, and nothing changes.
  pub fallocate_keeps :
      (offset len : ℕ)
      → length b ≤ max_size
      → offset + len ≤ max_size
      → 0 < len
      → ((has n.mode perm_write ≡ true)
          × (t : Fs) × (fallocate fd offset len s ≡ done tt t)
          × (fd_pread fd (record { is_null = false; len = max (length b) (offset + len) } ∷ []) 0 t
              ≡ done
                  ((b ++ replicate (offset + len - length b) 0) ∷ [], max (length b) (offset + len))
                  t))
        ⊎ ((has n.mode perm_write ≡ false) × (fallocate fd offset len s ≡ fail ebadf s))
  unfolding fallocate load load_open get_size
  fallocate_keeps offset len hb ho pos = elim (Bool-cases (has n.mode perm_write)) [
    | inl w ↦
        let read = pread_grown (offset + len) hb ho in
        inl (
          w,
          grown (offset + len),
          allocated offset len ho pos w,
          rw (length-padded (offset + len)) at read,
        )
    | inr w ↦ inr (w, ground (arith, w, h.entry, h.opened, h.file, h.memory))
  ]
