-- ===== src/Fuzzer/ReadWrite/Ending.antt =====
-- That the workload ends.
use emscripten_memfswasm_wra.Base.{
  ℕ, suc, ◌≤◌, ◌<◌, ◌≡◌, refl, ap, ◌∙◌, Option, none, some, List, ◌++◌, length, get_elem?, arith,
  get_elem?_outside,
}
use native.Mathlib.Decide.{dec_lt}
use emscripten_memfswasm_wra.Memory.DataFile.{Bytes, max_size}
use emscripten_memfswasm_wra.Fuzzer.Random.{Random}
use emscripten_memfswasm_wra.Fuzzer.Random.Bounds.{HasInput}
use emscripten_memfswasm_wra.Fuzzer.ReadWrite.{
  Phase, waiting, testing, working, ended, failed, Thread, Main, starting, sleeping, joining,
  finished, World, Actor, executing, worker, num_readers, run, execute,
}
use emscripten_memfswasm_wra.Fuzzer.ReadWrite.Schedules.{count, run-keeps, run-descends, run-append}
use emscripten_memfswasm_wra.Fuzzer.ReadWrite.Atomic.{AllUniform, rank}
use emscripten_memfswasm_wra.Fuzzer.ReadWrite.Launched.{execute-Launched}
use emscripten_memfswasm_wra.Fuzzer.ReadWrite.Turns.{IsSound, turn-IsSound, run-IsSound}
use emscripten_memfswasm_wra.Fuzzer.ReadWrite.Ranks.{
  main_rank, join_rank, found_rank, thread_rank, main_rank-turn, turn-Stopping, Stopping,
  thread_rank-turn, turn-Joining, Joining, join_rank-turn, main_finished, all_ended,
}

module _ (size : ℕ) (bound : size ≤ max_size) (work : List Bytes) where
  module _ (uniform : AllUniform size work) (some_work : 0 < length work) where
    rank_le : (p : Phase) → rank p ≤ 2
    rank_le waiting = omega arith
    rank_le testing = omega arith
    rank_le working = omega arith
    rank_le ended = omega arith
    rank_le failed = omega arith

    join_rank_le : (m : Main) → join_rank m ≤ suc (suc num_readers)
    join_rank_le starting = omega arith
    join_rank_le sleeping = omega arith
    join_rank_le (joining k) = omega arith
    join_rank_le finished = omega arith

    main_rank_le : (m : Main) → main_rank m ≤ 2
    main_rank_le starting = omega arith
    main_rank_le sleeping = omega arith
    main_rank_le (joining k) = omega arith
    main_rank_le finished = omega arith

    run-Stopping :
        (s : List Actor) (w : World)
        → 2 ≤ count executing s
        → IsSound size w
        → Stopping size bound work uniform some_work (run work s w)
    unfolding Stopping
    run-Stopping s w two h =
        let down =
          run-descends work (IsSound size) (turn-IsSound size bound work uniform some_work)
            (λ v. main_rank v.main) executing
            (λ b v k. main_rank-turn size bound work uniform some_work b v) s w h in
        (
          run-IsSound size bound work uniform some_work s w h,
          omega (arith, down, two, main_rank_le w.main),
        )

    found_rank-fair :
        (w : World) (i c : ℕ) (m : Option Thread)
        → get_elem? w.threads i ≡ m
        → length w.threads ≡ suc num_readers
        → (i < suc num_readers → 2 ≤ c)
        → found_rank m ≤ c
    found_rank-fair w i c none e l fair = omega arith
    found_rank-fair w i c (some t) e l fair = elim (dec_lt i (suc num_readers)) [
      | yes p ↦ omega (arith, fair p, rank_le t.phase)
      | no p ↦
          let o : get_elem? w.threads i ≡ none =
            get_elem?_outside w.threads i (omega (arith, l, p)) in
          absurd cc
    ]

    run-Joining :
        (t : List Actor) (w : World)
        → ((i : ℕ) → i < suc num_readers → 2 ≤ count (worker i) t)
        → Stopping size bound work uniform some_work w
        → Joining size bound work uniform some_work (run work t w)
    unfolding Joining Stopping
    run-Joining t w fair h = (
      run-keeps work (Stopping size bound work uniform some_work)
          (turn-Stopping size bound work uniform some_work) t w h,
      λ i.
          let down =
            run-descends work (Stopping size bound work uniform some_work)
              (turn-Stopping size bound work uniform some_work) (thread_rank i) (worker i)
              (λ b v k. thread_rank-turn size bound work uniform some_work i b v k) t w h in
          let enough =
            found_rank-fair w i (count (worker i) t) (get_elem? w.threads i) refl h.0.crew
              (fair i) in
          omega (arith, down, enough),
    )

    run-finished :
        (u : List Actor) (w : World)
        → suc (suc num_readers) ≤ count executing u
        → Joining size bound work uniform some_work w
        → (run work u w).main ≡ finished
    unfolding Joining Stopping
    run-finished u w l h =
        let down =
          run-descends work (Joining size bound work uniform some_work)
            (turn-Joining size bound work uniform some_work) (λ v. join_rank v.main) executing
            (λ b v k. join_rank-turn size bound work uniform some_work b v k) u w h in
        let k =
          run-keeps work (Joining size bound work uniform some_work)
            (turn-Joining size bound work uniform some_work) u w h in
        main_finished size bound work uniform some_work _ _ (run work u w).main k.0.0.flags k.0.1
          (omega (arith, down, l, join_rank_le w.main))

-- With input and strings that fit into a vector, the workload ends on every fair schedule: when the
-- main thread has had two turns, to set `go` and `stop`, then each other thread two, and then the main
-- thread one for each `join` and one more, whatever other turns are taken between them, all threads
-- have ended and the main thread has joined them all.
pub execute_ends :
    (size : ℕ) (s t u : List Actor) (r : Random)
    → size ≤ max_size
    → HasInput r
    → 2 ≤ count executing s
    → ((i : ℕ) → i < suc num_readers → 2 ≤ count (worker i) t)
    → suc (suc num_readers) ≤ count executing u
    → (w : World) × (execute size (s ++ (t ++ u)) r ≡ some w)
      × (w.main ≡ finished)
      × ((i : ℕ) (t : Thread) → get_elem? w.threads i ≡ some t → t.phase ≡ ended)
execute_ends size s t u r bound h two fair l =
    let e = execute-Launched size (s ++ (t ++ u)) r bound h in
    let stopping = run-Stopping size bound e.work e.uniform e.some_work s e.start two e.sound in
    let joining = run-Joining size bound e.work e.uniform e.some_work t _ fair stopping in
    let kept =
      run-keeps e.work (Joining size bound e.work e.uniform e.some_work)
        (turn-Joining size bound e.work e.uniform e.some_work) u _ joining in
    (
      run e.work u (run e.work t (run e.work s e.start)),
      e.runs
          ∙ ap some
              (run-append e.work s (t ++ u) e.start ∙ run-append e.work t u (run e.work s e.start)),
      run-finished size bound e.work e.uniform e.some_work u _ l joining,
      λ i v f. all_ended size bound e.work e.uniform e.some_work _ i v kept f,
    )
