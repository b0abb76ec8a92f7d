-- ===== src/Fuzzer/ReadWrite/Launched.antt =====
-- The state when the threads of the workload are created, and what holds from then on.
use emscripten_memfswasm_wra.Base.{
  ℕ, zero, suc, ◌≤◌, ◌<◌, ◌≡◌, ◌≢◌, refl, ap, sym, subst, Option, none, some, List, [], ◌∷◌, length,
  get_elem?, replicate, arith,
}
use emscripten_memfswasm_wra.Memory.DataFile.{Bytes, max_size, write, written}
use emscripten_memfswasm_wra.Fuzzer.Random.{Random, up_to}
use emscripten_memfswasm_wra.Fuzzer.Random.Bounds.{HasInput, Returns, Returns-bind, up_to_bound}
use emscripten_memfswasm_wra.Fuzzer.Random.Strings.{IsUniform, single_symbol-IsUniform}
use emscripten_memfswasm_wra.Fuzzer.ReadWrite.{
  Role, writer, reader, waiting, failed, Thread, World, Actor, starting, run, strings, make_work,
  populated, run_from, execute_with, execute, head, threads_made, num_readers,
}
use emscripten_memfswasm_wra.Fuzzer.ReadWrite.Atomic.{
  Fine, AllUniform, write_whole, length-IsUniform,
}
use emscripten_memfswasm_wra.Fuzzer.ReadWrite.Turns.{IsSound, run-IsSound}

strings-AllUniform :
    (size n : ℕ) (r : Random)
    → HasInput r
    → Returns (λ work. (length work ≡ n) × AllUniform size work) (strings size n r)
unfolding strings
strings-AllUniform size zero r h = ((refl, tt), h)
strings-AllUniform size (suc n) r h =
    Returns-bind (IsUniform size) _ _ _ (single_symbol-IsUniform size r h) λ text s u hs.
      Returns-bind _ _ (strings size n s) _ (strings-AllUniform size n s hs)
        λ work t k ht. ((ap suc k.0, (u, k.1)), ht)

IsWork : ℕ → List Bytes → Type 0
IsWork size work = (0 < length work) × AllUniform size work

work_made :
    (size n : ℕ) (m : Option (List Bytes × Random))
    → Returns (λ work. (length work ≡ suc n) × AllUniform size work) m
    → Returns (IsWork size) m
unfolding IsWork
work_made size n none h = h
work_made size n (some (work, r)) h = ((omega (arith, h.0.0), h.0.1), h.1)

make_work-IsWork : (size : ℕ) (r : Random) → HasInput r → Returns (IsWork size) (make_work size r)
unfolding make_work IsWork
make_work-IsWork size r h =
    Returns-bind (λ n. n < 10) (IsWork size) (up_to 10 r) _ (up_to_bound 10 r (omega arith) h)
      λ n s k hs. work_made size n (strings size (suc n) s) (strings-AllUniform size (suc n) s hs)

made-waiting :
    (n i : ℕ) (t : Thread) (role : Role)
    → get_elem? (replicate n (record { role = role; phase = waiting })) i ≡ some t
    → t.phase ≡ waiting
made-waiting zero i t role e = absurd cc
made-waiting (suc n) zero t role e =
    let f : record { role = role; phase = waiting } ≡ t = cc in sym (ap (λ u. u.phase) f)
made-waiting (suc n) (suc i) t role e = made-waiting n i t role e

all_waiting : (i : ℕ) (t : Thread) → get_elem? threads_made i ≡ some t → t.phase ≡ waiting
all_waiting zero t e =
    let f : record { role = writer; phase = waiting } ≡ t = cc in sym (ap (λ u. u.phase) f)
all_waiting (suc i) t e = made-waiting num_readers i t reader e

-- The work that was made, and the state when the threads are created.
pub record Launched (size : ℕ) (schedule : List Actor) (result : Option World) : Type 0 where
  pub work : List Bytes
  pub start : World
  pub runs : result ≡ some (run work schedule start)
  pub uniform : AllUniform size work
  pub some_work : 0 < length work
  pub sound : IsSound size start
  pub main : start.main ≡ starting
  pub phases : (i : ℕ) (t : Thread) → get_elem? start.threads i ≡ some t → t.phase ≡ waiting

populated-Launched :
    (size : ℕ) (schedule : List Actor) (work : List Bytes) (r : Random)
    → size ≤ max_size
    → IsWork size work
    → HasInput r
    → Launched size schedule (run_from work schedule (populated r (write (head work) 0 [])))
unfolding IsWork
populated-Launched size schedule [] r bound (l, u) h = absurd (omega arith)
populated-Launched size schedule (text ∷ work) r bound (l, u) h =
    let e : write text 0 [] ≡ written text =
      write_whole text [] (omega (arith, length-IsUniform size text u.0)) (omega arith) in
    subst (λ m. Launched size schedule (run_from (text ∷ work) schedule (populated r m))) (sym e)
      (record {
        work = text ∷ work;
        start = _;
        runs = refl;
        uniform = u;
        some_work = l;
        sound = record {
          whole = (u.0, h);
          fine = λ i t f. subst Fine (sym (all_waiting i t f)) tt;
          crew = refl;
          flags = tt;
        };
        main = refl;
        phases = all_waiting;
      })

-- With input, the workload gets to where its threads are created.
pub execute-Launched :
    (size : ℕ) (schedule : List Actor) (r : Random)
    → size ≤ max_size
    → HasInput r
    → Launched size schedule (execute size schedule r)
unfolding execute
execute-Launched size schedule r bound h =
    elim (make_work size r)
        as (λ m. Returns (IsWork size) m → Launched size schedule (execute_with schedule m)) [
          | none ↦ λ k. absurd k
          | some (work, s) ↦ λ k. populated-Launched size schedule work s bound k.0 k.1
        ]
      (make_work-IsWork size r h)

-- With input and strings that fit into a vector, whatever turns the threads of the workload take,
-- the file holds one string of a single symbol between any two of them, and no thread has failed: no
-- read has mixed two writes, and every call has transferred all its bytes.
pub execute_atomic :
    (size : ℕ) (schedule : List Actor) (r : Random)
    → size ≤ max_size
    → HasInput r
    → (w : World) × (execute size schedule r ≡ some w)
      × IsUniform size w.shared.content
      × ((i : ℕ) (t : Thread) → get_elem? w.threads i ≡ some t → t.phase ≢ failed)
execute_atomic size schedule r bound h =
    let l = execute-Launched size schedule r bound h in
    let s = run-IsSound size bound l.work l.uniform l.some_work schedule l.start l.sound in
    (run l.work schedule l.start, l.runs, s.whole.0, λ i t e f. subst Fine f (s.fine i t e))
