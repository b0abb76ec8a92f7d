-- ===== src/Memory/DataFile/Bounds.antt =====
-- `MemoryDataFile::write` and `read` at offsets below zero.
use emscripten_memfswasm_wra.Base.{
  ℕ, ◌+◌, ◌-◌, ◌%◌, ◌≤◌, ◌<◌, ◌≡◌, ◌⊎◌, inl, inr, true, false, length, take, drop, arith, leb, ltb,
}
use native.Mathlib.Decide.{dec_lt}
use emscripten_memfswasm_wra.Memory.DataFile.{
  Bytes, off_t_min, off_t_mod, size_t_mod, max_size, Written, Fetched, written, fetched, overwrite,
  copy_in, copy_out, write_to, len_before, write, read,
}
use emscripten_memfswasm_wra.Memory.DataFile.Laws.{copy_in-eq, copy_out-eq, length-resize}
use emscripten_memfswasm_wra.Memory.DataFile.{resize}

copy_in-outside :
    (s : Bytes) (i : ℕ) (b : Bytes)
    → 0 < length s
    → length b < i + length s
    → copy_in s i b ≡ Written.out_of_bounds
unfolding copy_in
copy_in-outside s i b pos h = ground arith

copy_out-outside :
    (len i : ℕ) (b : Bytes)
    → 0 < len
    → length b < i + len
    → copy_out len i b ≡ Fetched.out_of_bounds
unfolding copy_out
copy_out-outside len i b pos h = ground arith

-- At an offset below zero, bytes that are no more than a vector can hold are written at the index if
-- the range from there is in the vector, and else the vector is left.
pub write-negative :
    (s : Bytes) (o : ℕ) (b : Bytes)
    → off_t_min ≤ o
    → o < off_t_mod
    → 0 < length s
    → length s ≤ max_size
    → ((o % size_t_mod + length s ≤ length b)
        × (write s o b ≡ written (overwrite (o % size_t_mod) s b)))
      ⊎ ((length b < o % size_t_mod + length s) × (write s o b ≡ Written.out_of_bounds))
unfolding write write_to
write-negative s o b low high pos small =
    let t : leb off_t_min o ≡ true = ground arith in
    let u : ltb max_size (length s - (off_t_mod - o)) ≡ false = ground arith in
    elim (dec_lt (length b) (length s - (off_t_mod - o))) [
      | yes p ↦
          let v : ltb (length b) (length s - (off_t_mod - o)) ≡ true = ground arith in
          let out : length b < o % size_t_mod + length s = omega arith in
          let l = length-resize (length s - (off_t_mod - o)) b in
          let c =
            copy_in-outside s (o % size_t_mod) (resize (length s - (off_t_mod - o)) b) pos
              (omega (arith, l)) in
          inr (out, rw (t, v, u) c)
      | no p ↦
          let v : ltb (length b) (length s - (off_t_mod - o)) ≡ false = ground arith in
          elim (dec_lt (length b) (o % size_t_mod + length s)) [
            | yes q ↦ inr (q, rw (t, v) (copy_in-outside s (o % size_t_mod) b pos q))
            | no q ↦ inl (omega arith, rw (t, v) (copy_in-eq s (o % size_t_mod) b (omega arith)))
          ]
    ]

-- A length that is changed leaves the vector, and so does the one that was asked for.
len_before-cases :
    (len back : ℕ) (b : Bytes)
    → length b ≤ max_size
    → len < size_t_mod
    → (len_before len back b ≡ len)
      ⊎ ((len_before len back b ≡ length b + back) × (back ≤ len) × (length b + back ≤ len))
len_before-cases len back b hb small = ground arith

pub read-negative :
    (len o : ℕ) (b : Bytes)
    → off_t_min ≤ o
    → o < off_t_mod
    → length b ≤ max_size
    → 0 < len
    → len < size_t_mod
    → ((o % size_t_mod + len ≤ length b)
        × (read len o b ≡ fetched (take len (drop (o % size_t_mod) b))))
      ⊎ ((length b < o % size_t_mod + len) × (read len o b ≡ Fetched.out_of_bounds))
unfolding read
read-negative len o b low high hb pos small =
    let t : leb off_t_min o ≡ true = ground arith in
    elim (len_before-cases len (off_t_mod - o) b hb small) [
      | inr (e, k, m) ↦
          let out : length b < o % size_t_mod + len = omega arith in
          let over : length b < o % size_t_mod + (length b + (off_t_mod - o)) = omega arith in
          inr (
            out,
            rw (t, e)
                (copy_out-outside (length b + (off_t_mod - o)) (o % size_t_mod) b (omega arith)
                  over),
          )
      | inl e ↦ elim (dec_lt (length b) (o % size_t_mod + len)) [
        | yes q ↦ inr (q, rw (t, e) (copy_out-outside len (o % size_t_mod) b pos q))
        | no q ↦ inl (omega arith, rw (t, e) (copy_out-eq len (o % size_t_mod) b (omega arith)))
      ]
    ]
