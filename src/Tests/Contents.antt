-- ===== src/Tests/Contents.antt =====
-- The bytes of a file and the pieces of a path.
use emscripten_memfswasm_wra.Base.{
  ◌+◌, ◌≤◌, ◌<◌, take, drop, ◌≡◌, ◌⊎◌, inl, refl, some, [], ◌∷◌, length, get_elem?, arith,
}
use emscripten_memfswasm_wra.Posix.{eio}
use emscripten_memfswasm_wra.Memory.DataFile.{
  Bytes, written, write, write_to, copy_in, refused, resize, overwrite, max_size,
}
use emscripten_memfswasm_wra.Memory.DataFile.Laws.{after_write, write_frame, write_bound}
use emscripten_memfswasm_wra.Tests.{three}

abbrev gap : Bytes
gap = 1 ∷ 2 ∷ 3 ∷ 0 ∷ 0 ∷ 7 ∷ 8 ∷ []

gap-written : write (7 ∷ 8 ∷ []) 5 three ≡ written gap
unfolding write write_to copy_in resize overwrite
gap-written = refl

write_frame_example :
    (take 2 (drop 5 gap) ≡ 7 ∷ 8 ∷ [])
    × (get_elem? gap 4 ≡ some 0)
    × (length gap ≡ 7)
    × (length gap ≤ max_size)
write_frame_example =
    write_frame (7 ∷ 8 ∷ []) 5 three 4 (omega arith) gap-written (omega arith) (inl (omega arith))

write_bound_example :
    ((5 + 2 ≤ max_size)
      × (write (7 ∷ 8 ∷ []) 5 three ≡ written (after_write (7 ∷ 8 ∷ []) 5 three))
      × (length (after_write (7 ∷ 8 ∷ []) 5 three) ≤ max_size))
    ⊎ ((max_size < 5 + 2) × (write (7 ∷ 8 ∷ []) 5 three ≡ refused eio))
write_bound_example = write_bound (7 ∷ 8 ∷ []) 5 three (omega arith) (omega arith)
