-- ===== src/Fuzzer/ReadWrite/Ranks.antt =====
-- How far each thread of the workload is from its end, and what a turn changes of that.
use emscripten_memfswasm_wra.Base.{
  ℕ, zero, suc, ◌-◌, ◌≤◌, ◌<◌, ◌≡◌, inl, inr, refl, ap, ◌∙◌, sym, subst, Bool, true, false, Option,
  none, some, List, [], ◌∷◌, length, get_elem?, set, arith, ◌==◌, Bool-cases,
}
use emscripten_memfswasm_wra.Memory.DataFile.{Bytes, max_size}
use emscripten_memfswasm_wra.Fuzzer.ReadWrite.{
  Phase, waiting, testing, working, ended, failed, Thread, Main, starting, sleeping, joining,
  finished, World, Actor, executing, worker, joined, num_readers, has_ended, is_ended, act,
  main_turn, found_turn, turn,
}
use emscripten_memfswasm_wra.Fuzzer.ReadWrite.Schedules.{tick}
use emscripten_memfswasm_wra.Fuzzer.ReadWrite.Atomic.{Fine, AllUniform, rank}
use emscripten_memfswasm_wra.Fuzzer.ReadWrite.Turns.{Flags, IsSound, turn-IsSound, advance}

-- The turns up to the first `join`.
abbrev pub main_rank : Main → ℕ
main_rank starting = 2
main_rank sleeping = 1
main_rank m = 0

-- The turns from the first `join` on.
abbrev pub join_rank : Main → ℕ
join_rank (joining k) = suc (suc num_readers) - k
join_rank m = 0

abbrev pub found_rank : Option Thread → ℕ
found_rank none = 0
found_rank (some t) = rank t.phase

abbrev pub thread_rank : ℕ → World → ℕ
thread_rank i w = found_rank (get_elem? w.threads i)

found_turn-main :
    (work : List Bytes) (w : World) (i : ℕ) (m : Option Thread)
    → (found_turn work w i m).main ≡ w.main
found_turn-main work w i none = refl
found_turn-main work w i (some t) = refl

main_turn-threads :
    (work : List Bytes) (w : World) (m : Main) → (main_turn work w m).threads ≡ w.threads
unfolding main_turn
main_turn-threads work w starting = refl
main_turn-threads work w sleeping = refl
main_turn-threads work w (joining k) = refl
main_turn-threads work w finished = refl

joined-rank : (b c : Bool) (k : ℕ) → main_rank (joined b c k) ≡ 0
joined-rank true c k = refl
joined-rank false true k = refl
joined-rank false false k = refl

module _ (size : ℕ) (bound : size ≤ max_size) (work : List Bytes) where
  module _ (uniform : AllUniform size work) (some_work : 0 < length work) where
    main_rank-main_turn :
        (w : World) (m : Main) → w.main ≡ m → main_rank (main_turn work w m).main ≤ main_rank m - 1
    unfolding main_turn
    main_rank-main_turn w starting e = omega arith
    main_rank-main_turn w sleeping e = omega arith
    main_rank-main_turn w (joining k) e =
        omega (arith, joined-rank (k == length w.threads) (is_ended (get_elem? w.threads k)) k)
    main_rank-main_turn w finished e = omega (arith, ap main_rank e)

    pub main_rank-turn :
        (b : Actor) (w : World)
        → main_rank (turn work b w).main ≤ main_rank w.main - tick executing b
    unfolding turn
    main_rank-turn executing w = main_rank-main_turn w w.main refl
    main_rank-turn (worker i) w =
        omega (arith, ap main_rank (found_turn-main work w i (get_elem? w.threads i)))

    -- The flags are set.
    unfoldable pub Stopping : World → Type 0
    Stopping w = IsSound size w × (main_rank w.main ≡ 0)

    pub turn-Stopping : (b : Actor) (w : World) → Stopping w → Stopping (turn work b w)
    unfolding Stopping
    turn-Stopping b w (h, e) =
        (turn-IsSound size bound work uniform some_work b w h, omega (arith, main_rank-turn b w))

    Flags-set :
        (w : World) (m : Main)
        → Flags w.shared.go w.shared.stop m
        → main_rank m ≡ 0
        → (w.shared.go ≡ true) × (w.shared.stop ≡ true)
    Flags-set w starting f e = absurd (omega arith)
    Flags-set w sleeping f e = absurd (omega arith)
    Flags-set w (joining k) f e = (f.0, f.1)
    Flags-set w finished f e = f

    set-rank :
        (ts : List Thread) (i j : ℕ) (v t : Thread)
        → get_elem? ts i ≡ some t
        → rank v.phase ≤ rank t.phase - 1
        → found_rank (get_elem? (set ts i v) j)
          ≤ found_rank (get_elem? ts j) - tick (worker j) (worker i)
    set-rank [] i j v t e h = absurd cc
    set-rank (x ∷ ts) zero zero v t e h =
        let f : x ≡ t = cc in omega (arith, ap (λ u. rank u.phase) f)
    set-rank (x ∷ ts) zero (suc j) v t e h = ground arith
    set-rank (x ∷ ts) (suc i) zero v t e h = ground arith
    set-rank (x ∷ ts) (suc i) (suc j) v t e h =
        let rest = set-rank ts i j v t e h in ground (arith, rest)

    -- The turn of a thread brings its end nearer, and that of no other further.
    thread_rank-found_turn :
        (w : World) (i j : ℕ) (m : Option Thread)
        → get_elem? w.threads j ≡ m
        → Stopping w
        → thread_rank i (found_turn work w j m) ≤ thread_rank i w - tick (worker i) (worker j)
    unfolding Stopping
    thread_rank-found_turn w i j none e (h, z) = elim (Bool-cases (i == j)) [
      | inl p ↦
          let q : i ≡ j = ground (arith, p) in
          let f : thread_rank i w ≡ 0 = ap (λ k. thread_rank k w) q ∙ ap found_rank e in
          omega (arith, f)
      | inr p ↦ let f : tick (worker i) (worker j) ≡ 0 = rw p refl in omega (arith, f)
    ]
    thread_rank-found_turn w i j (some t) e (h, z) =
        let a = advance size bound work uniform some_work w j t h e in
        let (go, stop) = Flags-set w w.main h.flags z in
        let after = act work w.shared t.role t.phase in
        set-rank w.threads j i (record t { phase = after.1 }) t e (a.nearer go stop)

    pub thread_rank-turn :
        (i : ℕ) (b : Actor) (w : World)
        → Stopping w
        → thread_rank i (turn work b w) ≤ thread_rank i w - tick (worker i) b
    unfolding turn
    thread_rank-turn i executing w h =
        omega (arith, ap (λ ts. found_rank (get_elem? ts i)) (main_turn-threads work w w.main))
    thread_rank-turn i (worker j) w h = thread_rank-found_turn w i j (get_elem? w.threads j) refl h

    -- The flags are set, and the threads have ended.
    unfoldable pub Joining : World → Type 0
    Joining w = Stopping w × ((i : ℕ) → thread_rank i w ≡ 0)

    pub turn-Joining : (b : Actor) (w : World) → Joining w → Joining (turn work b w)
    unfolding Joining
    turn-Joining b w (h, e) =
        (turn-Stopping b w h, λ i. omega (arith, thread_rank-turn i b w h, e i))

    thread_ended : (p : Phase) → Fine p → rank p ≡ 0 → p ≡ ended
    thread_ended waiting f e = absurd (omega arith)
    thread_ended testing f e = absurd (omega arith)
    thread_ended working f e = absurd (omega arith)
    thread_ended ended f e = refl
    thread_ended failed f e = absurd f

    pub all_ended :
        (w : World) (i : ℕ) (t : Thread)
        → Joining w
        → get_elem? w.threads i ≡ some t
        → t.phase ≡ ended
    unfolding Joining Stopping
    all_ended w i t h e = thread_ended t.phase (h.0.0.fine i t e) (sym (ap found_rank e) ∙ h.1 i)

    crew_there : (w : World) → Joining w → length w.threads ≡ suc num_readers
    unfolding Joining Stopping
    crew_there w h = h.0.0.crew

    joins_bound : (w : World) (k : ℕ) → Joining w → w.main ≡ joining k → k ≤ suc num_readers
    unfolding Joining Stopping
    joins_bound w k h e =
        let f : Flags w.shared.go w.shared.stop (joining k) =
          subst (Flags w.shared.go w.shared.stop) e h.0.0.flags in
        f.2

    thread_there :
        (ts : List Thread) (k : ℕ) → k < length ts → (t : Thread) × (get_elem? ts k ≡ some t)
    thread_there [] k h = absurd (omega arith)
    thread_there (t ∷ ts) zero h = (t, refl)
    thread_there (t ∷ ts) (suc k) h = thread_there ts k (omega arith)

    -- A `join` finds its thread ended.
    joins :
        (w : World) (k : ℕ)
        → Joining w
        → w.main ≡ joining k
        → join_rank (main_turn work w (joining k)).main ≤ join_rank (joining k) - 1
    unfolding main_turn
    joins w k h e = elim (Bool-cases (k == length w.threads)) [
      | inl p ↦ rw p (omega arith)
      | inr p ↦
          let l : k < length w.threads = grind (arith, p, joins_bound w k h e, crew_there w h) in
          let (t, f) = thread_there w.threads k l in
          let g : is_ended (get_elem? w.threads k) ≡ true =
            ap is_ended f ∙ ap has_ended (all_ended w k t h f) in
          rw (p, g) (omega arith)
    ]

    join_rank-main_turn :
        (w : World) (m : Main)
        → Joining w
        → w.main ≡ m
        → join_rank (main_turn work w m).main ≤ join_rank m - 1
    unfolding main_turn Joining Stopping
    join_rank-main_turn w starting h e = absurd (omega (arith, h.0.1, ap main_rank e))
    join_rank-main_turn w sleeping h e = absurd (omega (arith, h.0.1, ap main_rank e))
    join_rank-main_turn w (joining k) h e = joins w k h e
    join_rank-main_turn w finished h e = omega (arith, ap join_rank e)

    pub join_rank-turn :
        (b : Actor) (w : World)
        → Joining w
        → join_rank (turn work b w).main ≤ join_rank w.main - tick executing b
    unfolding turn
    join_rank-turn executing w h = join_rank-main_turn w w.main h refl
    join_rank-turn (worker i) w h =
        omega (arith, ap join_rank (found_turn-main work w i (get_elem? w.threads i)))

    pub main_finished :
        (go stop : Bool) (m : Main)
        → Flags go stop m
        → main_rank m ≡ 0
        → join_rank m ≡ 0
        → m ≡ finished
    main_finished go stop starting f z e = absurd (omega arith)
    main_finished go stop sleeping f z e = absurd (omega arith)
    main_finished go stop (joining k) (g, s, l) z e = absurd (omega (arith, l, e))
    main_finished go stop finished f z e = refl
