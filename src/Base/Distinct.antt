-- ===== src/Base/Distinct.antt =====
-- Lists of distinct numbers below a bound.
use Prim.Native.Nat.{ℕ, zero, suc, ◌+◌, ◌≤◌, ◌<◌}
use mathlib.Core.Path.{◌≡◌, refl, sym}
use mathlib.Core.Logic.{◌≢◌, inl, inr}
use mathlib.Core.List.{List, [], ◌∷◌}
use native.Mathlib.Omega.{arith}
use emscripten_memfswasm_wra.Base.Tests.{◌==◌, if◌then◌else◌, Bool-cases, ==_iff}
use emscripten_memfswasm_wra.Base.Lists.{length}

abbrev pub Absent : ℕ → List ℕ → Type 0
Absent n [] = Unit
Absent n (x ∷ xs) = (n ≢ x) × Absent n xs

abbrev pub Distinct : List ℕ → Type 0
Distinct [] = Unit
Distinct (x ∷ xs) = Absent x xs × Distinct xs

abbrev pub AllBelow : ℕ → List ℕ → Type 0
AllBelow n [] = Unit
AllBelow n (x ∷ xs) = (x < n) × AllBelow n xs

abbrev without : ℕ → List ℕ → List ℕ
without n [] = []
without n (x ∷ xs) = if x == n then without n xs else x ∷ without n xs

without-Absent : (n : ℕ) (xs : List ℕ) → Absent n xs → without n xs ≡ xs
without-Absent n [] h = refl
without-Absent n (x ∷ xs) h = ground (arith, without-Absent n xs h.1, h.0)

length-without : (n : ℕ) (xs : List ℕ) → Distinct xs → length xs ≤ length (without n xs) + 1
length-without n [] h = omega arith
length-without n (x ∷ xs) h = elim (Bool-cases (x == n)) [
  | inl e ↦
      let same : x ≡ n = (==_iff x n).0 e in
      rw (e, without-Absent n xs (rw (sym same) h.0)) (omega arith)
  | inr e ↦ rw e (omega (arith, length-without n xs h.1))
]

Absent-without : (m n : ℕ) (xs : List ℕ) → Absent m xs → Absent m (without n xs)
Absent-without m n [] h = tt
Absent-without m n (x ∷ xs) h = elim (Bool-cases (x == n)) [
  | inl e ↦ rw e (Absent-without m n xs h.1)
  | inr e ↦ rw e (h.0, Absent-without m n xs h.1)
]

Distinct-without : (n : ℕ) (xs : List ℕ) → Distinct xs → Distinct (without n xs)
Distinct-without n [] h = tt
Distinct-without n (x ∷ xs) h = elim (Bool-cases (x == n)) [
  | inl e ↦ rw e (Distinct-without n xs h.1)
  | inr e ↦ rw e (Absent-without x n xs h.0, Distinct-without n xs h.1)
]

AllBelow-without : (n : ℕ) (xs : List ℕ) → AllBelow (suc n) xs → AllBelow n (without n xs)
AllBelow-without n [] h = tt
AllBelow-without n (x ∷ xs) h = elim (Bool-cases (x == n)) [
  | inl e ↦ rw e (AllBelow-without n xs h.1)
  | inr e ↦ rw e (ground (arith, h.0, e), AllBelow-without n xs h.1)
]

-- There are no more distinct numbers below a bound than the bound.
pub length-Distinct : (n : ℕ) (xs : List ℕ) → Distinct xs → AllBelow n xs → length xs ≤ n
length-Distinct zero [] d b = omega arith
length-Distinct zero (x ∷ xs) d b = absurd (omega (arith, b.0))
length-Distinct (suc n) xs d b = omega (
  arith,
  length-without n xs d,
  length-Distinct n (without n xs) (Distinct-without n xs d) (AllBelow-without n xs b),
)
