-- ===== src/Fuzzer/ReadWrite/Atomic.antt =====
-- What one turn of a thread does to the file, and that the checks of the threads hold.
use emscripten_memfswasm_wra.Base.{
  ℕ, zero, suc, ◌+◌, ◌-◌, ◌≤◌, ◌<◌, ◌≡◌, refl, ap, ◌∙◌, sym, subst, Bool, true, false, none, some,
  List, [], ◌∷◌, ◌++◌, length, drop, get_elem?, replicate, max, if◌then◌else◌, arith,
  length-replicate, take_all, drop_all, append-nil, ◌==◌,
}
use emscripten_memfswasm_wra.Memory.DataFile.{
  Bytes, max_size, overwrite, resize, write, written, read, fetched,
}
use emscripten_memfswasm_wra.Memory.DataFile.Laws.{write-eq, read-eq, length-resize, after_write}
use emscripten_memfswasm_wra.Fuzzer.Random.{up_to}
use emscripten_memfswasm_wra.Fuzzer.Random.Bounds.{HasInput, Returns, up_to_bound}
use emscripten_memfswasm_wra.Fuzzer.Random.Strings.{IsUniform}
use emscripten_memfswasm_wra.Fuzzer.ReadWrite.{
  same_from, is_same, Role, writer, reader, Phase, waiting, testing, working, ended, failed, Shared,
  head_size, write_text, write_found, write_drawn, text_written, write_random, check_read,
  bytes_read, read_once, act,
}

-- A write at 0 of as many bytes as the file has, or more, replaces the bytes of the file.
pub after_write-whole : (text b : Bytes) → length b ≤ length text → after_write text 0 b ≡ text
unfolding overwrite
after_write-whole text b k =
    let e : max (length b) (length text) ≡ length text = omega arith in
    let d : drop (length text) (resize (length text) b) ≡ [] =
      drop_all (length text) (resize (length text) b)
        (omega (arith, length-resize (length text) b)) in
    let f : length text ≡ 0 + length text = omega arith in
    rw (sym f) (rw (e, d, append-nil text) refl)

pub write_whole :
    (text b : Bytes)
    → length text ≤ max_size
    → length b ≤ length text
    → write text 0 b ≡ written text
write_whole text b h k =
    write-eq text 0 b (omega arith) (omega arith) ∙ ap written (after_write-whole text b k)

same_seen : (n c z : ℕ) → same_from (c ∷ []) (replicate n c ++ (z ∷ [])) ≡ true
unfolding same_from
same_seen zero c z = refl
same_seen (suc zero) c z = ground arith
same_seen (suc (suc n)) c z = let rest = same_seen (suc n) c z in ground (arith, rest)

-- Bytes that are all the same pass the check, whatever the byte behind them is.
pub same_uniform : (n c z : ℕ) → is_same (replicate n c ++ (z ∷ [])) ≡ true
unfolding same_from
same_uniform zero c z = refl
same_uniform (suc zero) c z = refl
same_uniform (suc (suc n)) c z = same_seen (suc n) c z

abbrev pub Fine : Phase → Type 0
Fine failed = ⊥
Fine p = Unit

-- The turns that a thread still takes when `go` and `stop` are set.
abbrev pub rank : Phase → ℕ
rank waiting = 2
rank testing = 1
rank working = 2
rank ended = 0
rank failed = 0

-- The strings of the work have one symbol each, and a size.
abbrev pub AllUniform : ℕ → List Bytes → Type 0
AllUniform size [] = Unit
AllUniform size (text ∷ work) = IsUniform size text × AllUniform size work

-- The file has the bytes of one string, and there is random input.
abbrev pub IsWhole : ℕ → Shared → Type 0
IsWhole size s = IsUniform size s.content × HasInput s.rand

-- A turn of a thread leaves the file whole and the flags alone, does not fail, and brings the end
-- nearer when the flags are set.
pub record Advances (size : ℕ) (s : Shared) (p : Phase) (after : Shared × Phase) : Type 0 where
  pub whole : IsWhole size after.0
  pub fine : Fine after.1
  pub go : after.0.go ≡ s.go
  pub stop : after.0.stop ≡ s.stop
  pub nearer : s.go ≡ true → s.stop ≡ true → rank after.1 ≤ rank p - 1

pub length-IsUniform : (size : ℕ) (b : Bytes) → IsUniform size b → length b ≡ size
length-IsUniform size b (c, k, e) = rw e (length-replicate size c)

text-IsUniform :
    (size i : ℕ) (work : List Bytes)
    → AllUniform size work
    → i < length work
    → (text : Bytes) × (get_elem? work i ≡ some text) × IsUniform size text
text-IsUniform size i [] h k = absurd (omega arith)
text-IsUniform size zero (text ∷ work) h k = (text, refl, h.0)
text-IsUniform size (suc i) (text ∷ work) h k = text-IsUniform size i work h.1 (omega arith)

module _ (size : ℕ) (bound : size ≤ max_size) (work : List Bytes) where
  pub write_text-eq :
      (text : Bytes) (s : Shared)
      → IsUniform size text
      → IsWhole size s
      → write_text work text s ≡ (record s { content = text }, testing)
  unfolding write_text
  write_text-eq text s u h =
      let lt = length-IsUniform size text u in
      let lb = length-IsUniform size s.content h.0 in
      ap (text_written work s)
        (write_whole text s.content (omega (arith, lt, bound)) (omega (arith, lt, lb)))

  write_text-Advances :
      (text : Bytes) (s : Shared)
      → IsUniform size text
      → IsWhole size s
      → Advances size s working (write_text work text s)
  write_text-Advances text s u h =
      subst (Advances size s working) (sym (write_text-eq text s u h)) (record {
        whole = (u, h.1);
        fine = tt;
        go = refl;
        stop = refl;
        nearer = λ a b. omega arith;
      })

  module _ (uniform : AllUniform size work) (some_work : 0 < length work) where
    write_found-Advances :
        (i : ℕ) (s : Shared)
        → i < length work
        → IsWhole size s
        → Advances size s working (write_found work s (get_elem? work i))
    write_found-Advances i s k h =
        let (text, e, u) = text-IsUniform size i work uniform k in
        subst (λ m. Advances size s working (write_found work s m)) (sym e)
          (write_text-Advances text s u h)

    write_random-Advances :
        (s : Shared) → IsWhole size s → Advances size s working (write_random work s)
    unfolding write_random
    write_random-Advances s h =
        elim (up_to (length work) s.rand)
            as (λ m.
              Returns (λ n. n < length work) m → Advances size s working (write_drawn work s m)) [
                | none ↦ λ k. absurd k
                | some (i, r) ↦ λ k.
                    let n = write_found-Advances i (record s { rand = r }) k.0 (h.0, k.1) in
                    record {
                      whole = n.whole;
                      fine = n.fine;
                      go = n.go;
                      stop = n.stop;
                      nearer = n.nearer;
                    }
              ]
          (up_to_bound (length work) s.rand some_work h.1)

  head-IsUniform :
      (texts : List Bytes) → AllUniform size texts → 0 < length texts → head_size texts ≡ size
  head-IsUniform [] u h = absurd (omega arith)
  head-IsUniform (text ∷ texts) u h = length-IsUniform size text u.0

  check_read-testing :
      (b : Bytes)
      → AllUniform size work
      → 0 < length work
      → IsUniform size b
      → check_read work b ≡ testing
  check_read-testing b u h (c, k, e) =
      let hs = head-IsUniform work u h in
      let lb = length-IsUniform size b (c, k, e) in
      let one : suc (head_size work) - length b ≡ 1 = omega (arith, hs, lb) in
      let all : (length b == head_size work) ≡ true = ground (arith, hs, lb) in
      let same : is_same (b ++ replicate (suc (head_size work) - length b) 0) ≡ true =
        ap (λ n. is_same (b ++ replicate n 0)) one
        ∙ ap (λ l. is_same (l ++ (0 ∷ []))) e
        ∙ same_uniform size c 0 in
      rw (all, same) refl

  -- A read gets the bytes of one string, and they pass both checks.
  pub read_once-testing :
      (s : Shared)
      → AllUniform size work
      → 0 < length work
      → IsWhole size s
      → read_once work s ≡ testing
  unfolding read_once
  read_once-testing s u h k =
      let hs = head-IsUniform work u h in
      let lb = length-IsUniform size s.content k.0 in
      let f : read (head_size work) 0 s.content ≡ fetched s.content =
        read-eq (head_size work) 0 s.content (omega (arith, lb, bound)) (omega (arith, hs, bound))
        ∙ ap fetched (take_all (head_size work) s.content (omega (arith, lb, hs))) in
      ap (bytes_read work) f ∙ check_read-testing s.content u h k.0

  same_phase :
      (s : Shared) (p q : Phase)
      → IsWhole size s
      → Fine q
      → (s.go ≡ true → s.stop ≡ true → rank q ≤ rank p - 1)
      → Advances size s p (s, q)
  same_phase s p q h f n = record { whole = h; fine = f; go = refl; stop = refl; nearer = n }

  waits :
      (s : Shared) (go : Bool)
      → s.go ≡ go
      → IsWhole size s
      → Advances size s waiting (s, if go then testing else waiting)
  waits s true e h = same_phase s waiting testing h tt (λ a b. omega arith)
  waits s false e h = same_phase s waiting waiting h tt (λ a b. absurd cc)

  tests :
      (s : Shared) (stop : Bool)
      → s.stop ≡ stop
      → IsWhole size s
      → Advances size s testing (s, if stop then ended else working)
  tests s true e h = same_phase s testing ended h tt (λ a b. omega arith)
  tests s false e h = same_phase s testing working h tt (λ a b. absurd cc)

  -- Every turn of a thread that has not failed is as `Advances` says.
  pub act-Advances :
      (s : Shared) (role : Role) (p : Phase)
      → AllUniform size work
      → 0 < length work
      → IsWhole size s
      → Fine p
      → Advances size s p (act work s role p)
  unfolding act
  act-Advances s role waiting u l h f = waits s s.go refl h
  act-Advances s role testing u l h f = tests s s.stop refl h
  act-Advances s writer working u l h f = write_random-Advances u l s h
  act-Advances s reader working u l h f =
      subst (λ q. Advances size s working (s, q)) (sym (read_once-testing s u l h))
        (same_phase s working testing h tt (λ a b. omega arith))
  act-Advances s role ended u l h f = same_phase s ended ended h tt (λ a b. omega arith)
  act-Advances s role failed u l h f = absurd f
