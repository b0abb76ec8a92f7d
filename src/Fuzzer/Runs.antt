-- ===== src/Fuzzer/Runs.antt =====
-- `Fuzzer::run` of wasmfs/fuzzer/fuzzer.cpp, with the sizes of wasmfs/fuzzer/parameters.h. The engine
-- `std::mt19937_64` is a parameter: the number of its output to the output, from a seed.
use emscripten_memfswasm_wra.Base.{
  ℕ, zero, suc, ◌*◌, ◌/◌, ◌%◌, ◌^◌, ◌≤◌, ◌<◌, ◌≡◌, ◌≢◌, false, Option, some, List, [], ◌∷◌, ◌++◌,
  length, get_elem?, arith, length-append,
}
use emscripten_memfswasm_wra.Memory.DataFile.{Bytes}
use emscripten_memfswasm_wra.Fuzzer.Random.{Random}
use emscripten_memfswasm_wra.Fuzzer.Random.Bounds.{HasInput}
use emscripten_memfswasm_wra.Fuzzer.Random.Strings.{IsUniform}
use emscripten_memfswasm_wra.Fuzzer.ReadWrite.{
  Thread, World, Actor, executing, worker, finished, ended, failed, num_readers, execute,
}
use emscripten_memfswasm_wra.Fuzzer.ReadWrite.Schedules.{count}
use emscripten_memfswasm_wra.Fuzzer.ReadWrite.Launched.{execute_atomic}
use emscripten_memfswasm_wra.Fuzzer.ReadWrite.Ending.{execute_ends}

abbrev pub file_size : ℕ
file_size = 20000000

abbrev num_rand_bytes : ℕ
num_rand_bytes = 4096

-- The bytes of a word in memory, the lowest first.
unfoldable bytes_of : ℕ → ℕ → Bytes
bytes_of zero word = []
bytes_of (suc n) word = word % 2 ^ 8 ∷ bytes_of n (word / 2 ^ 8)

module _ (engine : ℕ → ℕ → ℕ) where
  -- The loop over `bytes`, for a number of words from an output on.
  unfoldable filled : ℕ → ℕ → ℕ → Bytes
  filled seed i zero = []
  filled seed i (suc n) = bytes_of 8 (engine seed i) ++ filled seed (suc i) n

  unfoldable made_random : ℕ → Random
  made_random seed = record {
    bytes = filled seed 0 (num_rand_bytes / 8);
    pos = 0;
    finished_input = false;
    xor_factor = 0;
  }

  -- `Fuzzer::run`, with the turns that the threads take
  unfoldable pub run : List Actor → ℕ → Option World
  unfolding made_random filled bytes_of
  run schedule seed = execute file_size schedule (made_random seed)

  length-filled : (seed i n : ℕ) → length (filled seed i n) ≡ 8 * n
  unfolding filled bytes_of
  length-filled seed i zero = omega arith
  length-filled seed i (suc n) = omega (
    arith,
    length-append (bytes_of 8 (engine seed i)) (filled seed (suc i) n),
    length-filled seed (suc i) n,
  )

  made_random-HasInput : (seed : ℕ) → HasInput (made_random seed)
  unfolding made_random
  made_random-HasInput seed = record {
    some_input = omega (arith, length-filled seed 0 (num_rand_bytes / 8));
    inside = omega arith;
  }

  -- Whatever the engine, the seed and the turns that the threads take, the file of the workload holds one
  -- string of a single symbol between any two turns, and no thread has failed: no read has mixed two
  -- writes, and every call has transferred all its bytes.
  pub run_atomic :
      (schedule : List Actor) (seed : ℕ)
      → (w : World) × (run schedule seed ≡ some w)
        × IsUniform file_size w.shared.content
        × ((i : ℕ) (t : Thread) → get_elem? w.threads i ≡ some t → t.phase ≢ failed)
  unfolding run
  run_atomic schedule seed =
      execute_atomic file_size schedule (made_random seed) (omega arith) (made_random-HasInput seed)

  -- Whatever the engine and the seed, a run of the fuzzer ends on every fair schedule: when the main
  -- thread has had two turns, to set `go` and `stop`, then each other thread two, and then the main thread
  -- one for each `join` and one more, whatever other turns are taken between them, all threads have
  -- ended and the main thread has joined them all.
  pub run_ends :
      (s t u : List Actor) (seed : ℕ)
      → 2 ≤ count executing s
      → ((i : ℕ) → i < suc num_readers → 2 ≤ count (worker i) t)
      → suc (suc num_readers) ≤ count executing u
      → (w : World) × (run (s ++ (t ++ u)) seed ≡ some w)
        × (w.main ≡ finished)
        × ((i : ℕ) (t : Thread) → get_elem? w.threads i ≡ some t → t.phase ≡ ended)
  unfolding run
  run_ends s t u seed two fair l =
      execute_ends file_size s t u (made_random seed) (omega arith) (made_random-HasInput seed) two
        fair l
