-- ===== src/Tests/Fuzz.antt =====
-- The theorems about the fuzzer at a small input.
use emscripten_memfswasm_wra.Base.{
  ◌+◌, true, refl, ℕ, zero, suc, ◌≤◌, ◌<◌, ◌≡◌, ◌≢◌, arith, inl, inr, ◌==◌, Bool-cases, List, [],
  ◌∷◌, ◌++◌, some, get_elem?, replicate, false,
}
use emscripten_memfswasm_wra.Fuzzer.Runs.{file_size, run, run_atomic, run_ends}
use emscripten_memfswasm_wra.Store.{Fs, File, data_file, memory_file, done, update}
use emscripten_memfswasm_wra.Table.{get_entry}
use emscripten_memfswasm_wra.Paths.{get_open}
use emscripten_memfswasm_wra.Syscalls.Io.{fd_pwrite, fd_pread}
use emscripten_memfswasm_wra.Syscalls.Io.RoundTrip.{IsOpen}
use emscripten_memfswasm_wra.Fuzzer.ReadWrite.{Shared, write_text}
use emscripten_memfswasm_wra.Fuzzer.ReadWrite.Calls.{one_buffer, calls_turn}
use emscripten_memfswasm_wra.Tests.{small, open_a, file_of}
use emscripten_memfswasm_wra.Fuzzer.Random.{Random}
use emscripten_memfswasm_wra.Fuzzer.Random.Bounds.{HasInput}
use emscripten_memfswasm_wra.Fuzzer.Random.Strings.{IsUniform}
use emscripten_memfswasm_wra.Fuzzer.ReadWrite.{
  Thread, World, Actor, executing, worker, finished, ended, failed,
}
use emscripten_memfswasm_wra.Fuzzer.ReadWrite.Schedules.{count}

abbrev seed : Random
seed = record { bytes = 7 ∷ 200 ∷ 33 ∷ []; pos = 0; finished_input = false; xor_factor = 0 }

seed-HasInput : HasInput seed
seed-HasInput = record { some_input = omega arith; inside = omega arith }

-- Two turns of each thread below a number.
abbrev rounds : ℕ → List Actor
rounds zero = []
rounds (suc n) = worker n ∷ worker n ∷ rounds n

count-rounds : (n i : ℕ) → i < n → 2 ≤ count (worker i) (rounds n)
count-rounds zero i h = absurd (omega arith)
count-rounds (suc n) i h = elim (Bool-cases (i == n)) [
  | inl p ↦ rw p (omega arith)
  | inr p ↦
      let k : i < n = ground (arith, h, p) in
      let rest = count-rounds n i k in rw p (omega (arith, rest))
]

abbrev joins : List Actor
joins = replicate 22 executing

abbrev engine : ℕ → ℕ → ℕ
engine start i = start + i

run_ends_example :
    (w : World) × (run engine ((executing ∷ executing ∷ []) ++ (rounds 21 ++ joins)) 7 ≡ some w)
    × (w.main ≡ finished)
    × ((i : ℕ) (t : Thread) → get_elem? w.threads i ≡ some t → t.phase ≡ ended)
run_ends_example =
    run_ends engine (executing ∷ executing ∷ []) (rounds 21) joins 7 (omega arith) (count-rounds 21)
      (omega arith)

run_atomic_example :
    (w : World) × (run engine
        (executing ∷ worker 0 ∷ worker 0 ∷ worker 3 ∷ worker 0 ∷ worker 3 ∷ worker 3 ∷ [])
        7
      ≡ some w)
    × IsUniform file_size w.shared.content
    × ((i : ℕ) (t : Thread) → get_elem? w.threads i ≡ some t → t.phase ≢ failed)
run_atomic_example =
    run_atomic engine
      (executing ∷ worker 0 ∷ worker 0 ∷ worker 3 ∷ worker 0 ∷ worker 3 ∷ worker 3 ∷ []) 7

-- The file `a` with the bytes `aaa`.
abbrev shared_a : Shared
shared_a = record { content = replicate 3 0x61; rand = seed; go = true; stop = false }

abbrev uniform_a : File
uniform_a = file_of (data_file (memory_file (replicate 3 0x61))) (some 0)

abbrev with_uniform : Fs
with_uniform = record small { files = update small.files 1 (some uniform_a) }

with_uniform-IsOpen : IsOpen with_uniform 0 0 open_a uniform_a (replicate 3 0x61)
unfolding get_open get_entry
with_uniform-IsOpen = record { entry = refl; opened = refl; file = refl; memory = refl }

calls_turn_example :
    ((t : Fs) × (m : File) × (fd_pwrite 0 (one_buffer (replicate 3 0x62)) 0 with_uniform ≡ done 3 t)
      × IsOpen t 0 0 open_a m
          (write_text (replicate 3 0x62 ∷ []) (replicate 3 0x62) shared_a).0.content)
    × (fd_pread 0 (record { is_null = false; len = 3 } ∷ []) 0 with_uniform
        ≡ done (replicate 3 0x61 ∷ [], 3) with_uniform)
calls_turn_example =
    calls_turn 3 (replicate 3 0x62 ∷ []) (replicate 3 0x62) shared_a with_uniform 0 0 open_a
      uniform_a (omega arith) (omega arith) (0x62, refl, refl) ((0x61, refl, refl), seed-HasInput)
      with_uniform-IsOpen
