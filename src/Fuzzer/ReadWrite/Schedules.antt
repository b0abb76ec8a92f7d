-- ===== src/Fuzzer/ReadWrite/Schedules.antt =====
-- Lists of turns: counting the turns of one thread, and what falls with each of them.
use emscripten_memfswasm_wra.Base.{
  ℕ, ◌+◌, ◌-◌, ◌≤◌, ◌≡◌, refl, Bool, true, false, List, [], ◌∷◌, ◌++◌, if◌then◌else◌, arith, ◌==◌,
}
use emscripten_memfswasm_wra.Memory.DataFile.{Bytes}
use emscripten_memfswasm_wra.Fuzzer.ReadWrite.{World, Actor, executing, worker, turn, run}

abbrev pub same_actor : Actor → Actor → Bool
same_actor executing executing = true
same_actor (worker i) (worker j) = i == j
same_actor a b = false

abbrev pub tick : Actor → Actor → ℕ
tick a b = if same_actor a b then 1 else 0

-- How many turns of a thread a schedule has.
abbrev pub count : Actor → List Actor → ℕ
count a [] = 0
count a (b ∷ schedule) = tick a b + count a schedule

module _ (work : List Bytes) (P : World → Type 0)
    (keeps : (b : Actor) (w : World) → P w → P (turn work b w)) where
  pub run-keeps : (schedule : List Actor) (w : World) → P w → P (run work schedule w)
  unfolding run
  run-keeps [] w h = h
  run-keeps (b ∷ schedule) w h = run-keeps schedule (turn work b w) (keeps b w h)

  -- A number that no turn raises, and each turn of one thread lowers, falls by its turns.
  pub run-descends :
      (f : World → ℕ) (a : Actor)
      → ((b : Actor) (w : World) → P w → f (turn work b w) ≤ f w - tick a b)
      → (schedule : List Actor) (w : World) → P w
      → f (run work schedule w) ≤ f w - count a schedule
  unfolding run
  run-descends f a down [] w h = omega arith
  run-descends f a down (b ∷ schedule) w h =
      omega (arith, down b w h, run-descends f a down schedule (turn work b w) (keeps b w h))

pub run-append :
    (work : List Bytes) (s t : List Actor) (w : World)
    → run work (s ++ t) w ≡ run work t (run work s w)
unfolding run
run-append work [] t w = refl
run-append work (a ∷ s) t w = run-append work s t (turn work a w)
