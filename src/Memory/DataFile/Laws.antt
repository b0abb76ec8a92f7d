-- ===== src/Memory/DataFile/Laws.antt =====
-- What `write`, `read` and `setSize` do to the bytes of a file.
use emscripten_memfswasm_wra.Base.{
  get_elem?-take, get_elem?-drop, get_elem?-append_left, get_elem?-append_right,
  get_elem?-replicate, get_elem?, ◌∙◌, some, ◌⊎◌, inl, inr, ltb, true, false, none, if◌then◌else◌,
  get_elem?_outside, ℕ, ◌+◌, ◌-◌, ◌≤◌, ◌<◌, ◌≡◌, refl, ap, sym, leb, ◌-◌, ◌%◌, some, max, [], ◌++◌,
  length, take, drop, replicate, get_elem?, arith, length-append, length-take, length-drop,
  length-replicate, take-append, drop-append, drop_all, take_all, append-nil,
}
use native.Mathlib.Decide.{dec_lt}
use emscripten_memfswasm_wra.Posix.{eio}
use emscripten_memfswasm_wra.Memory.DataFile.{
  Bytes, off_t_min, max_size, size_t_mod, off_t_mod, resize, overwrite, copy_in, copy_out, write_to,
  refused, written, write, fetched, read,
}

pub length-resize : (n : ℕ) (b : Bytes) → length (resize n b) ≡ n
unfolding resize
length-resize n b = omega (
  arith,
  length-append (take n b) (replicate (n - length b) 0),
  length-take n b,
  length-replicate {A = ℕ} (n - length b) 0,
)

pub length-overwrite :
    (o : ℕ) (s b : Bytes) → o + length s ≤ length b → length (overwrite o s b) ≡ length b
unfolding overwrite
length-overwrite o s b h = omega (
  arith,
  length-append (take o b) (s ++ drop (o + length s) b),
  length-append s (drop (o + length s) b),
  length-take o b,
  length-drop (o + length s) b,
)

pub drop-overwrite :
    (o : ℕ) (s b : Bytes) → o ≤ length b → drop o (overwrite o s b) ≡ s ++ drop (o + length s) b
unfolding overwrite
drop-overwrite o s b h =
    drop-append o (take o b) (s ++ drop (o + length s) b) (omega (arith, length-take o b))

pub take-overwrite :
    (o : ℕ) (s b : Bytes) → o ≤ length b → take (length s) (drop o (overwrite o s b)) ≡ s
take-overwrite o s b h = rw (drop-overwrite o s b h) (take-append s (drop (o + length s) b))

-- The bytes of the vector after a write that is not refused: it grows to hold the range, with
-- zeros, and the range is copied over it.
abbrev pub after_write : Bytes → ℕ → Bytes → Bytes
after_write buf offset buffer =
    overwrite offset buf (resize (max (length buffer) (offset + length buf)) buffer)

pub resize_self : (b : Bytes) → resize (length b) b ≡ b
unfolding resize
resize_self b =
    let e : length b - length b ≡ 0 = omega arith in
    rw (e, take_all (length b) b (omega arith), append-nil)

-- Bytes that are copied over a range of the vector.
pub copy_in-eq :
    (buf : Bytes) (i : ℕ) (b : Bytes)
    → i + length buf ≤ length b
    → copy_in buf i b ≡ written (overwrite i buf b)
unfolding copy_in
copy_in-eq buf i b h = ground arith

index-eq : (o : ℕ) → o ≤ max_size → o % size_t_mod ≡ o
index-eq o h = omega arith

-- A write within the limits of a vector succeeds, and leaves `after_write`.
pub write-eq :
    (buf : Bytes) (o : ℕ) (b : Bytes)
    → length b ≤ max_size
    → o + length buf ≤ max_size
    → write buf o b ≡ written (after_write buf o b)
unfolding write write_to
write-eq buf o b hb h =
    let i = index-eq o (omega arith) in
    let low : leb off_t_min o ≡ false = ground arith in
    let sum : leb off_t_min (o + length buf) ≡ false = ground arith in
    elim (dec_lt (length b) (o + length buf)) [
      | yes p ↦
          let e : max (length b) (o + length buf) ≡ o + length buf = omega arith in
          let l = length-resize (o + length buf) b in
          let c = copy_in-eq buf o (resize (o + length buf) b) (omega (arith, l)) in
          let t : ltb (length b) (o + length buf) ≡ true = ground arith in
          let u : ltb max_size (o + length buf) ≡ false = ground arith in
          rw (e, low, sum, i, t, u, c) refl
      | no p ↦
          let e : max (length b) (o + length buf) ≡ length b = omega arith in
          let c = copy_in-eq buf o b (omega arith) in
          let t : ltb (length b) (o + length buf) ≡ false = ground arith in
          rw (e, resize_self b, low, sum, i, t, c) refl
    ]

pub copy_out-eq :
    (len i : ℕ) (b : Bytes) → i + len ≤ length b → copy_out len i b ≡ fetched (take len (drop i b))
unfolding copy_out
copy_out-eq len i b h = ground arith

pub read-eq :
    (len o : ℕ) (b : Bytes)
    → length b ≤ max_size
    → o + len < off_t_min
    → read len o b ≡ fetched (take len (drop o b))
unfolding read
read-eq len o b hb h = elim (dec_lt o (length b)) [
  | no p ↦
      let low : leb off_t_min o ≡ false = ground arith in
      let before : leb (length b) o ≡ true = ground arith in
      rw (low, before)
        (ap fetched
          (sym (ap (take len) (drop_all o b (omega arith)) ∙ take_all len [] (omega arith))))
  | yes p ↦
      let i = index-eq o (omega arith) in
      let low : leb off_t_min o ≡ false = ground arith in
      let before : leb (length b) o ≡ false = ground arith in
      let sum : leb off_t_min (o + len) ≡ false = ground arith in
      let l = length-drop {A = ℕ} o b in
      elim (dec_lt (o + len) (length b)) [
        | yes q ↦
            let t : leb (length b) (o + len) ≡ false = ground arith in
            rw (low, before, sum, t, i) (copy_out-eq len o b (omega arith))
        | no q ↦
            let t : leb (length b) (o + len) ≡ true = ground arith in
            rw (low, before, sum, t, i)
              (copy_out-eq (length b - o) o b (omega arith)
                ∙ ap fetched (
                    take_all (length b - o) (drop o b) (omega (arith, l))
                    ∙ sym (take_all len (drop o b) (omega (arith, l)))))
      ]
]

pub length-after_write :
    (s : Bytes) (o : ℕ) (b : Bytes) → length (after_write s o b) ≡ max (length b) (o + length s)
length-after_write s o b = omega (
  arith,
  length-resize (max (length b) (o + length s)) b,
  length-overwrite o s (resize (max (length b) (o + length s)) b),
)

copy_in-written :
    (buf : Bytes) (i : ℕ) (b : Bytes) {b' : Bytes}
    → 0 < length buf
    → copy_in buf i b ≡ written b'
    → (i + length buf ≤ length b) × (b' ≡ overwrite i buf b)
unfolding copy_in
copy_in-written buf i b pos h = elim (dec_lt (length b) (i + length buf)) [
  | no p ↦ (omega arith, cc (copy_in-eq buf i b (omega arith)))
  | yes p ↦ absurd (ground arith)
]

-- A sum that is past the limit is refused, and else the range is the one that the index begins.
write_to-written :
    (buf : Bytes) (i sum : ℕ) (b : Bytes) {b' : Bytes}
    → length b ≤ max_size
    → 0 < length buf
    → (sum ≤ i + length buf) ⊎ (max_size < sum)
    → write_to buf i sum b ≡ written b'
    → (i + length buf ≤ max_size) × (b' ≡ after_write buf i b)
unfolding write_to
write_to-written buf i sum b {b' = b'} hb pos near h = elim (dec_lt (length b) sum) [
  | no p ↦
      let t : ltb (length b) sum ≡ false = ground arith in
      let (inside, e) = copy_in-written buf i b pos (rw t at h) in
      let m : max (length b) (i + length buf) ≡ length b = omega arith in
      (omega arith, rw (m, resize_self b) e)
  | yes p ↦ elim (dec_lt max_size sum) [
    | yes q ↦ absurd (ground arith)
    | no q ↦
        let t : ltb (length b) sum ≡ true = ground arith in
        let u : ltb max_size sum ≡ false = ground arith in
        let (inside, e) = copy_in-written buf i (resize sum b) pos (rw (t, u) at h) in
        let l = length-resize sum b in
        let m : max (length b) (i + length buf) ≡ sum = ground (arith, inside, l, near, q, p) in
        (omega (arith, inside, l, q), rw m e)
  ]
]

-- A write of at least one byte that succeeds is one at the index.
write-written :
    (s : Bytes) (o : ℕ) (b : Bytes) {b' : Bytes}
    → length b ≤ max_size
    → 0 < length s
    → write s o b ≡ written b'
    → (o % size_t_mod + length s ≤ max_size) × (b' ≡ after_write s (o % size_t_mod) b)
unfolding write
write-written s o b hb pos h = elim (dec_lt o off_t_min) [
  | no p ↦
      let low : leb off_t_min o ≡ true = ground arith in
      write_to-written s (o % size_t_mod) (length s - (off_t_mod - o)) b hb pos (inl (omega arith))
        (rw low at h)
  | yes p ↦
      let low : leb off_t_min o ≡ false = ground arith in
      elim (dec_lt (o + length s) off_t_min) [
        | no q ↦ absurd (ground arith)
        | yes q ↦
            let sum : leb off_t_min (o + length s) ≡ false = ground arith in
            write_to-written s (o % size_t_mod) (o + length s) b hb pos (near_index o (length s))
              (rw (low, sum) at h)
      ]
]
  where
    near_index : (o n : ℕ) → (o + n ≤ o % size_t_mod + n) ⊎ (max_size < o + n)
    near_index o n = elim (dec_lt o size_t_mod) [
      | yes p ↦ inl (omega arith)
      | no p ↦ inr (omega arith)
    ]

-- From an offset that is not negative, where its sum with the length does not overflow, a write on a
-- file within the limits of a vector stays within the vector: it succeeds, and leaves the file within
-- the limits, exactly if its range ends within them, and else it is refused with `EIO`.
pub write_bound :
    (s : Bytes) (o : ℕ) (b : Bytes)
    → length b ≤ max_size
    → o + length s < off_t_min
    → ((o + length s ≤ max_size)
        × (write s o b ≡ written (after_write s o b))
        × (length (after_write s o b) ≤ max_size))
      ⊎ ((max_size < o + length s) × (write s o b ≡ refused eio))
unfolding write write_to
write_bound s o b hb h = elim (dec_lt max_size (o + length s)) [
  | no p ↦
      inl (omega arith, write-eq s o b hb (omega arith), omega (arith, length-after_write s o b))
  | yes p ↦
      let low : leb off_t_min o ≡ false = ground arith in
      let sum : leb off_t_min (o + length s) ≡ false = ground arith in
      let t : ltb (length b) (o + length s) ≡ true = ground arith in
      let u : ltb max_size (o + length s) ≡ true = ground arith in inr (p, rw (low, sum, t, u) refl)
]

-- What a write within the limits of a vector stored is what a read of the same range returns,
-- whatever else the file holds.
pub read-write :
    (s : Bytes) (o : ℕ) (b : Bytes)
    → length b ≤ max_size
    → o + length s ≤ max_size
    → read (length s) o (after_write s o b) ≡ fetched s
read-write s o b hb p =
    let l : o ≤ length (resize (max (length b) (o + length s)) b) =
      omega (arith, length-resize (max (length b) (o + length s)) b) in
    read-eq (length s) o (after_write s o b) (omega (arith, length-after_write s o b)) (omega arith)
    ∙ ap fetched (take-overwrite o s _ l)

module _ (o : ℕ) (s b : Bytes) (i : ℕ) where
  pub get_elem?-overwrite_before :
      i < o → o ≤ length b → get_elem? (overwrite o s b) i ≡ get_elem? b i
  unfolding overwrite
  get_elem?-overwrite_before h k =
      get_elem?-append_left (take o b) _ i (omega (arith, length-take o b)) ∙ get_elem?-take o i b h

  pub get_elem?-overwrite_after :
      o + length s ≤ i → o ≤ length b → get_elem? (overwrite o s b) i ≡ get_elem? b i
  unfolding overwrite
  get_elem?-overwrite_after h k =
      get_elem?-append_right (take o b) _ i (omega (arith, length-take o b))
      ∙ get_elem?-append_right s _ _ (omega (arith, length-take o b))
      ∙ get_elem?-drop (o + length s) _ b
      ∙ ap (get_elem? b) (omega (arith, length-take o b))

module _ (n : ℕ) (b : Bytes) (i : ℕ) where
  pub get_elem?-resize_old : i < n → i < length b → get_elem? (resize n b) i ≡ get_elem? b i
  unfolding resize
  get_elem?-resize_old h k =
      get_elem?-append_left (take n b) _ i (omega (arith, length-take n b)) ∙ get_elem?-take n i b h

  pub get_elem?-resize_new : i < n → length b ≤ i → get_elem? (resize n b) i ≡ some 0
  unfolding resize
  get_elem?-resize_new h k =
      get_elem?-append_right (take n b) _ i (omega (arith, length-take n b))
      ∙ get_elem?-replicate (n - length b) (i - length (take n b)) 0
          (omega (arith, length-take n b))

frame :
    (s : Bytes) (o : ℕ) (b : Bytes) (i : ℕ)
    → (i < o) ⊎ (o + length s ≤ i)
    → get_elem? (after_write s o b) i
      ≡ (if ltb i (length b) then get_elem? b i else if ltb i o then some 0 else none)
frame s o b i out =
    let n : ℕ = max (length b) (o + length s) in
    let l : length (resize n b) ≡ n = length-resize n b in
    let kept : get_elem? (after_write s o b) i ≡ get_elem? (resize n b) i = elim out [
      | inl before ↦ get_elem?-overwrite_before o s (resize n b) i before (omega arith)
      | inr after ↦ get_elem?-overwrite_after o s (resize n b) i after (omega arith)
    ] in
    elim (dec_lt i n) [
      | yes p ↦ elim (dec_lt i (length b)) [
        | yes q ↦
            let t : ltb i (length b) ≡ true = ground arith in
            rw (kept, t) (get_elem?-resize_old n b i p q)
        | no q ↦
            let t : ltb i (length b) ≡ false = ground arith in
            let u : ltb i o ≡ true = ground arith in
            rw (kept, t, u) (get_elem?-resize_new n b i p (omega arith))
      ]
      | no p ↦
          let t : ltb i (length b) ≡ false = ground arith in
          let u : ltb i o ≡ false = ground arith in
          rw (kept, t, u) (get_elem?_outside (resize n b) i (omega arith))
    ]

-- A write of at least one byte that succeeds on a file within the limits of a vector, at any offset,
-- negative ones included, puts its bytes at the index that the offset is converted to, which is the
-- offset modulo 2^32, and touches nothing else: the old bytes stay, the gap between the old end and the
-- range is zero, and there is nothing past both. The length is then the larger of the old one and the
-- end of the range, and within the limits.
pub write_frame :
    (s : Bytes) (o : ℕ) (b : Bytes) (i : ℕ) {b' : Bytes}
    → length b ≤ max_size
    → write s o b ≡ written b'
    → 0 < length s
    → (i < o % size_t_mod) ⊎ (o % size_t_mod + length s ≤ i)
    → (take (length s) (drop (o % size_t_mod) b') ≡ s)
      × (get_elem? b' i ≡ (
          if ltb i (length b)
          then get_elem? b i
          else if ltb i (o % size_t_mod)
          then some 0
          else none))
      × (length b' ≡ max (length b) (o % size_t_mod + length s))
      × (length b' ≤ max_size)
write_frame s o b i {b' = b'} hb h pos out =
    let (inside, e) = write-written s o b hb pos h in
    let l = length-after_write s (o % size_t_mod) b in
    let at_index : o % size_t_mod ≤ length (resize (max (length b) (o % size_t_mod + length s)) b) =
      omega (arith, length-resize (max (length b) (o % size_t_mod + length s)) b) in
    rw e (
      take-overwrite (o % size_t_mod) s _ at_index,
      frame s (o % size_t_mod) b i out,
      l,
      omega (arith, l, inside),
    )
