-- ===== src/Directory/Tree/Depth.antt =====
-- How deep a directory can lie.
use emscripten_memfswasm_wra.Base.{
  ◌∙◌, subst, ℕ, zero, suc, ◌<◌, ◌≡◌, ◌≢◌, refl, sym, ap, some, List, [], ◌∷◌, length, arith,
}
use emscripten_memfswasm_wra.Base.Names.{Name}
use emscripten_memfswasm_wra.Base.Distinct.{Absent, Distinct, AllBelow, length-Distinct}
use emscripten_memfswasm_wra.Store.{FileId, File, Fs}
use emscripten_memfswasm_wra.Directory.Tree.{IsTree, some-same}
use emscripten_memfswasm_wra.Directory.Tree.Down.{IsStep, Down, arrived, into, step-parent}

-- The number of parents up to the root.
abbrev pub HasDepth : Fs → ℕ → FileId → Type 0
HasDepth s zero f = f ≡ s.root
HasDepth s (suc k) f =
    (f ≢ s.root)
    × (p : FileId) × (m : File) × (s.files f ≡ some m)
    × (m.parent ≡ some p)
    × HasDepth s k p

depth_unique : (s : Fs) (j k : ℕ) (f : FileId) → HasDepth s j f → HasDepth s k f → j ≡ k
depth_unique s zero zero f h g = refl
depth_unique s zero (suc k) f h g = absurd (g.0 h)
depth_unique s (suc j) zero f h g = absurd (h.0 g)
depth_unique s (suc j) (suc k) f (ne, p, m, here, above, h) (ne', p', m', here', above', g) =
    let same : m ≡ m' = some-same m m' (sym here ∙ here') in
    let e : p ≡ p' = some-same p p' (sym above ∙ ap (λ z. z.parent) same ∙ above') in
    ap suc (depth_unique s j k p h (rw e g))

module _ (s : Fs) (tree : IsTree s) where
  step-HasDepth :
      (a c k : ℕ) (name : Name) → IsStep s a name c → HasDepth s k a → HasDepth s (suc k) c
  step-HasDepth a c k name step h =
      let (m, here, above) = step-parent s tree a c name step in
      (step.not_root, a, m, here, above, h)

  -- The directories on the way down.
  abbrev pub visited : {a d : FileId} {ns : List Name} → Down s a ns d → List ℕ
  visited (arrived a p n x l) = a ∷ []
  visited (into a c d name ns step below) = a ∷ visited below

  deeper_ne : (f a j k : ℕ) → HasDepth s j f → HasDepth s k a → j < k → f ≢ a
  deeper_ne f a j k hf ha lt e =
      let same : j ≡ k = depth_unique s j k a (subst (HasDepth s j) e hf) ha in
      absurd (omega (arith, same))

  visited-Absent :
      (a d f : FileId) (ns : List Name) (j k : ℕ) (below : Down s a ns d)
      → HasDepth s j f
      → HasDepth s k a
      → j < k
      → Absent f (visited below)
  visited-Absent a d f ns j k (arrived b p n x l) hf ha lt = (deeper_ne f b j k hf ha lt, tt)
  visited-Absent a d f ns j k (into b c e name ms step below) hf ha lt = (
    deeper_ne f b j k hf ha lt,
    visited-Absent c e f ms j (suc k) below hf (step-HasDepth b c k name step ha) (omega arith),
  )

  visited-Distinct :
      (a d : FileId) (ns : List Name) (k : ℕ) (below : Down s a ns d)
      → HasDepth s k a
      → Distinct (visited below)
  visited-Distinct a d ns k (arrived b p n x l) ha = (tt, tt)
  visited-Distinct a d ns k (into b c e name ms step below) ha =
      let hc = step-HasDepth b c k name step ha in
      (
        visited-Absent c e b ms k (suc k) below ha hc (omega arith),
        visited-Distinct c e ms (suc k) below hc,
      )

  linked_below : (f : FileId) (n : File) → s.files f ≡ some n → f < s.next_file
  linked_below f n h = ground (arith, tree.unused f, h)

  visited-AllBelow :
      (a d : FileId) (ns : List Name) (below : Down s a ns d) → AllBelow s.next_file (visited below)
  visited-AllBelow a d ns (arrived b p n x l) = (linked_below b n l.here, tt)
  visited-AllBelow a d ns (into b c e name ms step below) =
      (linked_below b step.record_of step.linked.here, visited-AllBelow c e ms below)

  length-visited :
      (a d : FileId) (ns : List Name) (below : Down s a ns d)
      → length (visited below) ≡ suc (length ns)
  length-visited a d ns (arrived b p n x l) = refl
  length-visited a d ns (into b c e name ms step below) = ap suc (length-visited c e ms below)

  -- A directory lies less deep below the root than there are files.
  pub depth_bound : (d : FileId) (ns : List Name) → Down s s.root ns d → length ns < s.next_file
  depth_bound d ns below =
      let most =
        length-Distinct s.next_file (visited below) (visited-Distinct s.root d ns 0 below refl)
          (visited-AllBelow s.root d ns below) in
      omega (arith, most, length-visited s.root d ns below)
