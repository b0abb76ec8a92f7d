-- ===== src/Fuzzer/ReadWrite/Turns.antt =====
-- What holds of the file, the flags and the threads between any two turns.
use emscripten_memfswasm_wra.Base.{
  ℕ, zero, suc, ◌≤◌, ◌<◌, ◌≡◌, refl, ◌∙◌, sym, subst, Bool, true, false, Option, none, some, List,
  [], ◌∷◌, length, get_elem?, set, arith, ◌==◌, length-set,
}
use emscripten_memfswasm_wra.Memory.DataFile.{Bytes, max_size}
use emscripten_memfswasm_wra.Fuzzer.ReadWrite.{
  Thread, Main, starting, sleeping, joining, finished, World, Actor, executing, worker, joined,
  num_readers, is_ended, act, main_turn, found_turn, turn, run,
}
use emscripten_memfswasm_wra.Fuzzer.ReadWrite.Atomic.{
  Fine, AllUniform, IsWhole, Advances, act-Advances,
}

-- The flags are set as far as the main thread has come, and it joins a thread that there is.
abbrev pub Flags : Bool → Bool → Main → Type 0
Flags go stop starting = Unit
Flags go stop sleeping = go ≡ true
Flags go stop (joining k) = (go ≡ true) × (stop ≡ true) × (k ≤ suc num_readers)
Flags go stop finished = (go ≡ true) × (stop ≡ true)

-- The file is whole, no thread has failed, all are there, and the flags are set in order.
pub record IsSound (size : ℕ) (w : World) : Type 0 where
  pub whole : IsWhole size w.shared
  pub fine : (i : ℕ) (t : Thread) → get_elem? w.threads i ≡ some t → Fine t.phase
  pub crew : length w.threads ≡ suc num_readers
  pub flags : Flags w.shared.go w.shared.stop w.main

set-Fine :
    (ts : List Thread) (i : ℕ) (v : Thread)
    → Fine v.phase
    → ((j : ℕ) (t : Thread) → get_elem? ts j ≡ some t → Fine t.phase)
    → (j : ℕ) (t : Thread) → get_elem? (set ts i v) j ≡ some t
    → Fine t.phase
set-Fine [] i v h k j t e = k j t e
set-Fine (x ∷ ts) zero v h k zero t e = let f : v ≡ t = cc in subst (λ u. Fine u.phase) f h
set-Fine (x ∷ ts) zero v h k (suc j) t e = k (suc j) t e
set-Fine (x ∷ ts) (suc i) v h k zero t e = k zero t e
set-Fine (x ∷ ts) (suc i) v h k (suc j) t e = set-Fine ts i v h (λ l. k (suc l)) j t e

joined-Flags :
    (w : World) (there : Bool) (k : ℕ) (behind : Bool)
    → (k == length w.threads) ≡ behind
    → length w.threads ≡ suc num_readers
    → Flags w.shared.go w.shared.stop (joining k)
    → Flags w.shared.go w.shared.stop (joined behind there k)
joined-Flags w there k true e c (g, s, l) = (g, s)
joined-Flags w true k false e c (g, s, l) =
    let bound : suc k ≤ suc num_readers = ground (arith, e, c, l) in (g, s, bound)
joined-Flags w false k false e c h = h

module _ (size : ℕ) (bound : size ≤ max_size) (work : List Bytes) where
  module _ (uniform : AllUniform size work) (some_work : 0 < length work) where
    -- What the turn of a thread that is there does.
    pub advance :
        (w : World) (i : ℕ) (t : Thread)
        → IsSound size w
        → get_elem? w.threads i ≡ some t
        → Advances size w.shared t.phase (act work w.shared t.role t.phase)
    advance w i t h e =
        act-Advances size bound work w.shared t.role t.phase uniform some_work h.whole
          (h.fine i t e)

    found_turn-IsSound :
        (w : World) (i : ℕ) (m : Option Thread)
        → get_elem? w.threads i ≡ m
        → IsSound size w
        → IsSound size (found_turn work w i m)
    found_turn-IsSound w i none e h = h
    found_turn-IsSound w i (some t) e h =
        let a = advance w i t h e in
        let after = act work w.shared t.role t.phase in
        record {
          whole = a.whole;
          fine = set-Fine w.threads i (record t { phase = after.1 }) a.fine h.fine;
          crew = length-set w.threads i (record t { phase = after.1 }) ∙ h.crew;
          flags =
              subst (λ g. Flags g after.0.stop w.main) (sym a.go)
                (subst (λ s. Flags w.shared.go s w.main) (sym a.stop) h.flags);
        }

    main_turn-IsSound :
        (w : World) (m : Main) → w.main ≡ m → IsSound size w → IsSound size (main_turn work w m)
    unfolding main_turn
    main_turn-IsSound w starting e h = record {
      whole = h.whole;
      fine = h.fine;
      crew = h.crew;
      flags = refl;
    }
    main_turn-IsSound w sleeping e h =
        let go : w.shared.go ≡ true = subst (Flags w.shared.go w.shared.stop) e h.flags in
        record { whole = h.whole; fine = h.fine; crew = h.crew; flags = (go, refl, omega arith) }
    main_turn-IsSound w (joining k) e h = record {
      whole = h.whole;
      fine = h.fine;
      crew = h.crew;
      flags =
          joined-Flags w (is_ended (get_elem? w.threads k)) k (k == length w.threads) refl h.crew
            (subst (Flags w.shared.go w.shared.stop) e h.flags);
    }
    main_turn-IsSound w finished e h = h

    -- Every turn keeps the state sound.
    pub turn-IsSound : (a : Actor) (w : World) → IsSound size w → IsSound size (turn work a w)
    unfolding turn
    turn-IsSound executing w h = main_turn-IsSound w w.main refl h
    turn-IsSound (worker i) w h = found_turn-IsSound w i (get_elem? w.threads i) refl h

    pub run-IsSound :
        (schedule : List Actor) (w : World) → IsSound size w → IsSound size (run work schedule w)
    unfolding run
    run-IsSound [] w h = h
    run-IsSound (a ∷ schedule) w h = run-IsSound schedule (turn work a w) (turn-IsSound a w h)
