-- ===== src/Syscalls/Io/Writing.antt =====
-- The loop of `writeAtOffset` over several buffers, on a file of the memory backend.
use emscripten_memfswasm_wra.Base.{
  ◌==◌, if◌then◌else◌, append-nil, length-append, refl, ap, ◌∙◌, fun_ext, [], ℕ, ◌+◌, ◌-◌, ◌%◌, ◌≤◌,
  ◌≡◌, false, ◌&&◌, some, List, ◌∷◌, ◌++◌, length, ltb, arith,
}
use emscripten_memfswasm_wra.Memory.DataFile.{Bytes, max_size, off_t_mod, size_t_mod}
use emscripten_memfswasm_wra.Memory.DataFile.Chunks.{after_write-append}
use emscripten_memfswasm_wra.Memory.DataFile.Laws.{length-after_write, after_write, write-eq}
use emscripten_memfswasm_wra.Store.{
  FileId, File, Fs, memory_file, data_file, done, update, load, store,
}
use emscripten_memfswasm_wra.Files.{as_ssize, store_data, write_impl, write_file}
use emscripten_memfswasm_wra.Syscalls.Io.{Ciovec, write_loop, add_will_overflow}

-- The file `n` is at `f`, and holds `b` in memory.
abbrev pub Holds : Fs → FileId → File → Bytes → Type 0
Holds s f n b = (s.files f ≡ some n) × (n.body ≡ data_file (memory_file b))

abbrev pub with_bytes : Fs → FileId → File → Bytes → Fs
with_bytes s f n b = record s {
  files = update s.files f (some (record n { body = data_file (memory_file b) }));
}

pub write_file-memory :
    (s : Fs) (f : FileId) (n : File) (b buf : Bytes) (o : ℕ)
    → Holds s f n b
    → length b ≤ max_size
    → o + length buf ≤ max_size
    → write_file f buf o s ≡ done (length buf) (with_bytes s f n (after_write buf o b))
unfolding write_file load write_impl store_data store as_ssize
write_file-memory s f n b buf o h hb ho = ground (arith, write-eq buf o b hb ho)

-- The bytes of all buffers.
abbrev pub gather : List Ciovec → Bytes
gather [] = []
gather (v ∷ vs) = v.bytes ++ gather vs

-- No buffer that has bytes is a null pointer.
abbrev pub Readable : List Ciovec → Type 0
Readable [] = Unit
Readable (v ∷ vs) = ((v.is_null && ltb 0 (length v.bytes)) ≡ false) × Readable vs

module _ (f : FileId) (o : ℕ) where
  write_loop-step :
      (sum : ℕ) (v : Ciovec) (vs : List Ciovec) (s : Fs) (n : File) (b : Bytes)
      → Holds s f n b
      → length b ≤ max_size
      → o + sum + length v.bytes ≤ max_size
      → (v.is_null && ltb 0 (length v.bytes)) ≡ false
      → write_loop f o sum (v ∷ vs) s
        ≡ write_loop f o
            (sum + length v.bytes)
            vs
            (with_bytes s f n (after_write v.bytes (o + sum) b))
  unfolding write_loop add_will_overflow
  write_loop-step sum v vs s n b h hb ho hv =
      let m : (o + sum) % off_t_mod ≡ o + sum = omega arith in
      let k : (sum + length v.bytes) % size_t_mod ≡ sum + length v.bytes = omega arith in
      let j : (ltb 0 o && ltb (off_t_mod - 1 - o) sum) ≡ false = ground arith in
      let w = write_file-memory s f n b v.bytes (o + sum) h hb ho in ground (arith, w, m, k, j)

  write_loop_nil : (sum : ℕ) (s : Fs) → write_loop f o sum [] s ≡ done sum s
  unfolding write_loop
  write_loop_nil sum s = refl

  with_bytes-with_bytes :
      (s : Fs) (n : File) (b c : Bytes)
      → with_bytes (with_bytes s f n b) f (record n { body = data_file (memory_file b) }) c
        ≡ with_bytes s f n c
  with_bytes-with_bytes s n b c =
      let g : (λ (j : ℕ).
        if j == f
        then some (record n { body = data_file (memory_file c) })
        else if j == f
        then some (record n { body = data_file (memory_file b) })
        else s.files j)
          ≡ (λ (j : ℕ).
              if j == f then some (record n { body = data_file (memory_file c) }) else s.files j) =
        fun_ext (λ j. ground arith) in
      ap (λ files. record s { files = files }) g

  -- On a file of the memory backend, the loop over one or more buffers writes all their bytes, as one
  -- write of them would, if the result fits into a vector and no buffer with bytes is a null pointer.
  pub write_loop-gather :
      (sum : ℕ) (v : Ciovec) (vs : List Ciovec) (s : Fs) (n : File) (b : Bytes)
      → Holds s f n b
      → length b ≤ max_size
      → o + sum + length (gather (v ∷ vs)) ≤ max_size
      → Readable (v ∷ vs)
      → write_loop f o sum (v ∷ vs) s
        ≡ done
            (sum + length (gather (v ∷ vs)))
            (with_bytes s f n (after_write (gather (v ∷ vs)) (o + sum) b))
  write_loop-gather sum v [] s n b h hb ho hv =
      let e : v.bytes ++ [] ≡ v.bytes = append-nil v.bytes in
      rw e (write_loop-step sum v [] s n b h hb (rw e at ho) hv.0 ∙ write_loop_nil _ _)
  write_loop-gather sum v (w ∷ ws) s n b h hb ho hv =
      let l : length (v.bytes ++ gather (w ∷ ws)) ≡ length v.bytes + length (gather (w ∷ ws)) =
        length-append v.bytes (gather (w ∷ ws)) in
      let c = after_write v.bytes (o + sum) b in
      let a : o + (sum + length v.bytes) ≡ o + sum + length v.bytes = omega arith in
      write_loop-step sum v (w ∷ ws) s n b h hb (omega arith) hv.0
      ∙ write_loop-gather (sum + length v.bytes) w ws (with_bytes s f n c)
          (record n { body = data_file (memory_file c) }) c (ground arith, refl)
          (omega (arith, length-after_write v.bytes (o + sum) b)) (omega arith) hv.1
      ∙ ap
          (λ k. done k (
            with_bytes (with_bytes s f n c) f (record n { body = data_file (memory_file c) })
              (after_write (gather (w ∷ ws)) (o + (sum + length v.bytes)) c)))
          (omega arith)
      ∙ ap (λ t. done (sum + length (gather (v ∷ w ∷ ws))) t)
          (with_bytes-with_bytes s n c _
            ∙ ap (with_bytes s f n) (
                ap (λ p. after_write (gather (w ∷ ws)) p c) a
                ∙ after_write-append v.bytes (gather (w ∷ ws)) (o + sum) b))
