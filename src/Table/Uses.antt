-- ===== src/Table/Uses.antt =====
-- The count of uses of an open file: how many descriptors refer to it.
use emscripten_memfswasm_wra.Base.{
  ℕ, zero, suc, ◌+◌, ◌-◌, ◌%◌, ◌^◌, ◌<◌, ◌≡◌, ◌≢◌, refl, sym, ◌∙◌, ap, Option, none, some, [], ◌∷◌,
  ◌++◌, arith, length, set, replicate, leb, ◌==◌, if◌then◌else◌, Bool-cases, inl, inr, ==_iff,
  ne_of_test, ◌⊎◌,
}
use emscripten_memfswasm_wra.Store.{FileId, OpenFile, Fs, done, update, load, load_open, store_open}
use emscripten_memfswasm_wra.Store.Bind.{bind-done, done-injective}
use emscripten_memfswasm_wra.Table.{Slots, slot, grow, retain, release, set_entry}
use emscripten_memfswasm_wra.Table.Laws.{grown, grown-length, put, set_entry-table, retain-table}

abbrev one_if : ℕ → Option ℕ → ℕ
one_if o none = 0
one_if o (some p) = if p == o then 1 else 0

-- How many slots refer to the open file `o`.
abbrev pub references : ℕ → Slots → ℕ
references o [] = 0
references o (e ∷ es) = one_if o e + references o es

references-append : (o : ℕ) (t u : Slots) → references o (t ++ u) ≡ references o t + references o u
references-append o [] u = omega arith
references-append o (e ∷ t) u = omega (arith, references-append o t u)

references-replicate : (o n : ℕ) → references o (replicate n none) ≡ 0
references-replicate o zero = refl
references-replicate o (suc n) = omega (arith, references-replicate o n)

references-grow : (o n : ℕ) (t : Slots) → references o (grow n t) ≡ references o t
unfolding grow
references-grow o n t = omega (
  arith,
  references-append o t (replicate (n - length t) none),
  references-replicate o (n - length t),
)

references-set :
    (o fd : ℕ) (x : Option ℕ) (t : Slots)
    → fd < length t
    → references o (set t fd x) + one_if o (slot t fd) ≡ references o t + one_if o x
references-set o fd x [] h = absurd (omega arith)
references-set o zero x (e ∷ t) h = omega arith
references-set o (suc fd) x (e ∷ t) h = omega (arith, references-set o fd x t (omega arith))

load_open-done :
    (o : ℕ) (n : OpenFile) (s t : Fs) → load_open o s ≡ done n t → (s.opens o ≡ some n) × (s ≡ t)
unfolding load_open
load_open-done o n s t h = (ground arith, ground arith)

stored-uses :
    (opens : ℕ → Option OpenFile) (p o : ℕ) (m n : OpenFile) (w : ℕ)
    → opens p ≡ some m
    → update opens p (some (record m { uses = w })) o ≡ some n
    → (x : OpenFile) × (opens o ≡ some x)
      × (((o ≡ p) × (n.uses ≡ w) × (x.uses ≡ m.uses)) ⊎ ((p ≢ o) × (n.uses ≡ x.uses)))
stored-uses opens p o m n w here k = elim (Bool-cases (o == p)) [
  | inl q ↦
      let same : o ≡ p = (==_iff o p).0 q in
      let e : some (record m { uses = w }) ≡ some n = rw q at k in
      (
        m,
        rw same here,
        inl (same, let f : record m { uses = w } ≡ n = cc in sym (ap (λ y. y.uses) f), refl),
      )
  | inr q ↦ let e : opens o ≡ some n = rw q at k in (n, e, inr (ne_of_test o p q, refl))
]

retain-opens :
    (p : ℕ) (m : OpenFile) (s t : Fs)
    → s.opens p ≡ some m
    → retain (some p) s ≡ done tt t
    → t.opens ≡ update s.opens p (some (record m { uses = (m.uses + 1) % 2 ^ 32 }))
unfolding retain load_open store_open
retain-opens p m s t here h = ground (arith, here)

retain-uses :
    (x : Option ℕ) (s t : Fs)
    → retain x s ≡ done tt t
    → (o : ℕ) (n : OpenFile) → t.opens o ≡ some n
    → (m : OpenFile) × (s.opens o ≡ some m) × (n.uses % 2 ^ 32 ≡ (m.uses + one_if o x) % 2 ^ 32)
unfolding retain
retain-uses none s t h o n k = let e : s ≡ t = (done-injective h).1 in (n, rw e k, omega arith)
retain-uses (some p) s t h o n k =
    let (m, u, a, l) = bind-done (load_open p s) _ h in
    let (here, same) = load_open-done p m s u a in
    let e = retain-opens p m s t here h in
    let (x, old, change) =
      stored-uses s.opens p o m n ((m.uses + 1) % 2 ^ 32) here (ap (λ y. y o) (sym e) ∙ k) in
    (x, old, ground (arith, change))

release-opens :
    (p : ℕ) (m : OpenFile) (s t : Fs) (c : Option FileId)
    → s.opens p ≡ some m
    → release (some p) s ≡ done c t
    → t.opens ≡ update s.opens p (some (record m { uses = (m.uses + (2 ^ 32 - 1)) % 2 ^ 32 }))
unfolding release load_open store_open load
release-opens p m s t c here h = ground (arith, here)

release-uses :
    (x : Option ℕ) (s t : Fs) (c : Option FileId)
    → release x s ≡ done c t
    → (o : ℕ) (n : OpenFile) → t.opens o ≡ some n
    → (m : OpenFile) × (s.opens o ≡ some m) × ((n.uses + one_if o x) % 2 ^ 32 ≡ m.uses % 2 ^ 32)
unfolding release
release-uses none s t c h o n k = let e : s ≡ t = (done-injective h).1 in (n, rw e k, omega arith)
release-uses (some p) s t c h o n k =
    let (m, u, a, l) = bind-done (load_open p s) _ h in
    let (here, same) = load_open-done p m s u a in
    let e = release-opens p m s t c here h in
    let (x, old, change) =
      stored-uses s.opens p o m n ((m.uses + (2 ^ 32 - 1)) % 2 ^ 32) here
        (ap (λ y. y o) (sym e) ∙ k) in
    (x, old, ground (arith, change))

references-grown : (o fd : ℕ) (t : Slots) → references o (grown fd t) ≡ references o t
references-grown o fd t = elim (Bool-cases (leb (length t) fd)) [
  | inl e ↦ rw e (references-grow o (fd + 1) t)
  | inr e ↦ rw e
]

balance :
    (new mid before refs refs' gain loss : ℕ)
    → (new + loss) % 2 ^ 32 ≡ mid % 2 ^ 32
    → mid % 2 ^ 32 ≡ (before + gain) % 2 ^ 32
    → refs' + loss ≡ refs + gain
    → (new + refs) % 2 ^ 32 ≡ (before + refs') % 2 ^ 32
balance new mid before refs refs' gain loss h i k = omega arith

-- `setEntry` changes the count of every open file by as much as the number of its slots changes, as
-- an `int` holds it, whatever it puts into the slot and whatever was there.
pub set_entry-uses :
    (fd : ℕ) (x : Option ℕ) (s t : Fs) (c : Option FileId) (o : ℕ) (n : OpenFile)
    → set_entry fd x s ≡ done c t
    → t.opens o ≡ some n
    → (m : OpenFile) × (s.opens o ≡ some m)
      × ((n.uses + references o s.table) % 2 ^ 32 ≡ (m.uses + references o t.table) % 2 ^ 32)
unfolding set_entry
set_entry-uses fd x s t c o n h k =
    let s0 = record s { table = grown fd s.table } in
    let (y, s1, r, l) = bind-done (retain x s0) _ h in
    let (z, s2, q, l1) = bind-done (release (slot s1.table fd) s1) _ l in
    let (m2, o2, e2) =
      release-uses _ s1 s2 z q o n (ap (λ w. w.opens o) (done-injective l1).1 ∙ k) in
    let (m1, o1, e1) = retain-uses x s0 s1 r o m2 o2 in
    let b = references-set o fd x (grown fd s.table) (grown-length fd s.table) in
    let e3 =
      ap (λ w. (n.uses + one_if o (slot w fd)) % 2 ^ 32) (sym (retain-table x s0 s1 r)) ∙ e2 in
    let e4 = b ∙ ap (λ w. w + one_if o x) (references-grown o fd s.table) in
    (
      m1,
      o1,
      balance n.uses m2.uses m1.uses (references o s.table) (references o (put fd x s.table))
            (one_if o x) (one_if o (slot (grown fd s.table) fd)) e3 e1 e4
          ∙ ap (λ w. (m1.uses + references o w) % 2 ^ 32) (sym (set_entry-table fd x s t c h)),
    )
