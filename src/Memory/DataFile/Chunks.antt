-- ===== src/Memory/DataFile/Chunks.antt =====
-- Accesses of a `MemoryDataFile` that follow each other.
use native.Mathlib.Decide.{dec_lt}
use emscripten_memfswasm_wra.Base.{
  ℕ, suc, ◌+◌, ◌-◌, ◌≤◌, ◌<◌, ◌≡◌, refl, sym, ap, ◌∙◌, Option, some, List, [], ◌∷◌, ◌++◌, length,
  take, get_elem?, max, arith, ltb, if◌then◌else◌, length-append, length-take, lt→ltb, le→ltb,
  get_elem?-append_left, get_elem?-append_right, get_elem?_outside,
}
use emscripten_memfswasm_wra.Memory.DataFile.{Bytes, resize, overwrite}
use emscripten_memfswasm_wra.Memory.DataFile.Laws.{
  after_write, length-after_write, length-resize, get_elem?-overwrite_before,
  get_elem?-overwrite_after, get_elem?-resize_old, get_elem?-resize_new,
}

-- Lists with the same elements at every index are equal.
pub list_ext {ℓ} :
    {A : Type ℓ} (xs ys : List A) → ((i : ℕ) → get_elem? xs i ≡ get_elem? ys i) → xs ≡ ys
list_ext [] [] h = refl
list_ext [] (y ∷ ys) h = cc (h 0)
list_ext (x ∷ xs) [] h = cc (h 0)
list_ext (x ∷ xs) (y ∷ ys) h =
    let e : x ≡ y = cc (h 0) in let t : xs ≡ ys = list_ext xs ys (λ i. h (suc i)) in rw (e, t)

get_elem?-overwrite_in :
    (o : ℕ) (s b : Bytes) (i : ℕ)
    → o ≤ i
    → i < o + length s
    → o ≤ length b
    → get_elem? (overwrite o s b) i ≡ get_elem? s (i - o)
unfolding overwrite
get_elem?-overwrite_in o s b i h k l =
    get_elem?-append_right (take o b) _ i (omega (arith, length-take o b))
    ∙ get_elem?-append_left s _ (i - length (take o b)) (omega (arith, length-take o b))
    ∙ ap (get_elem? s) (omega (arith, length-take o b))

-- A write, byte by byte.
pub byte_after : Bytes → ℕ → Bytes → ℕ → Option ℕ
byte_after s o b i =
    if ltb i o
    then (if ltb i (length b) then get_elem? b i else some 0)
    else if ltb i (o + length s)
    then get_elem? s (i - o)
    else get_elem? b i

pub get_elem?-after_write :
    (s : Bytes) (o : ℕ) (b : Bytes) (i : ℕ) → get_elem? (after_write s o b) i ≡ byte_after s o b i
unfolding byte_after
get_elem?-after_write s o b i =
    let n : ℕ = max (length b) (o + length s) in
    let l : length (resize n b) ≡ n = length-resize n b in
    elim (dec_lt i o) [
      | yes p ↦ elim (dec_lt i (length b)) [
        | yes q ↦
            rw (lt→ltb i o p, lt→ltb i (length b) q)
              (get_elem?-overwrite_before o s (resize n b) i p (omega arith)
                ∙ get_elem?-resize_old n b i (omega arith) q)
        | no q ↦
            rw (lt→ltb i o p, le→ltb i (length b) (omega arith))
              (get_elem?-overwrite_before o s (resize n b) i p (omega arith)
                ∙ get_elem?-resize_new n b i (omega arith) (omega arith))
      ]
      | no p ↦ elim (dec_lt i (o + length s)) [
        | yes q ↦
            rw (le→ltb i o (omega arith), lt→ltb i (o + length s) q)
              (get_elem?-overwrite_in o s (resize n b) i (omega arith) q (omega arith))
        | no q ↦
            rw (le→ltb i o (omega arith), le→ltb i (o + length s) (omega arith))
              (get_elem?-overwrite_after o s (resize n b) i (omega arith) (omega arith)
                ∙ elim (dec_lt i (length b)) [
                  | yes r ↦ get_elem?-resize_old n b i (omega arith) r
                  | no r ↦
                      get_elem?_outside (resize n b) i (omega arith)
                      ∙ sym (get_elem?_outside b i (omega arith))
                ])
      ]
    ]

bytes-append :
    (x y : Bytes) (o : ℕ) (b : Bytes) (i : ℕ)
    → byte_after y (o + length x) (after_write x o b) i ≡ byte_after (x ++ y) o b i
unfolding byte_after
bytes-append x y o b i =
    let e : i - (o + length x) ≡ i - o - length x = omega arith in
    rw (e, get_elem?-after_write x o b i, length-after_write x o b, length-append x y)
      (ground (
        arith,
        get_elem?-append_left x y (i - o),
        get_elem?-append_right x y (i - o),
        get_elem?_outside b i,
      ))

-- Writing `x`, and then `y` where `x` ended, is writing both at once.
pub after_write-append :
    (x y : Bytes) (o : ℕ) (b : Bytes)
    → after_write y (o + length x) (after_write x o b) ≡ after_write (x ++ y) o b
after_write-append x y o b = list_ext _ _ λ i.
    get_elem?-after_write y (o + length x) (after_write x o b) i
    ∙ pointwise i
    ∙ sym (get_elem?-after_write (x ++ y) o b i)
  where
    pointwise :
        (i : ℕ) → byte_after y (o + length x) (after_write x o b) i ≡ byte_after (x ++ y) o b i
    pointwise i = bytes-append x y o b i
