-- ===== src/Table/Laws.antt =====
-- The laws of the file table.
use emscripten_memfswasm_wra.Base.{
  Bool-cases, inl, inr, ◌⊎◌, ==_iff, ne_of_test, ℕ, zero, suc, ◌+◌, ◌-◌, ◌≤◌, ◌<◌, ◌≡◌, ◌≢◌, refl,
  sym, ◌∙◌, ap, Option, none, some, [], ◌∷◌, ◌++◌, arith, length, set, replicate, leb, ◌==◌,
  if◌then◌else◌, get_elem?-set_self, get_elem?-set_ne, get_elem?-append_left,
  get_elem?-append_right, get_elem?-replicate, get_elem?_outside, length-append, length-replicate,
}
use native.Mathlib.Decide.{dec_lt}
use emscripten_memfswasm_wra.Store.{FileId, Fs, done, load, load_open, store_open}
use emscripten_memfswasm_wra.Store.Bind.{bind-done, done-injective}
use emscripten_memfswasm_wra.Table.{
  Slots, slot, grow, free_slot, retain, release, set_entry, add_entry,
}

abbrev pub grown : ℕ → Slots → Slots
grown fd t = if leb (length t) fd then grow (fd + 1) t else t

-- What `setEntry` leaves in the vector.
abbrev pub put : ℕ → Option ℕ → Slots → Slots
put fd o t = set (grown fd t) fd o

abbrev as_slot : Option (Option ℕ) → Option ℕ
as_slot none = none
as_slot (some o) = o

slot-grow : (n fd : ℕ) (t : Slots) → slot (grow n t) fd ≡ slot t fd
unfolding grow
slot-grow n fd t = elim (dec_lt fd (length t)) [
  | yes h ↦ ap as_slot (get_elem?-append_left t _ fd h)
  | no h ↦ elim (dec_lt fd n) [
    | yes k ↦
        ap as_slot (get_elem?-append_right t _ fd (omega arith))
        ∙ ap as_slot (get_elem?-replicate (n - length t) (fd - length t) none (omega arith))
        ∙ sym (ap as_slot (get_elem?_outside t fd (omega arith)))
    | no k ↦
        ap as_slot (
          get_elem?_outside (t ++ replicate (n - length t) none) fd (
            omega (
              arith,
              length-append t (replicate (n - length t) none),
              length-replicate {A = Option ℕ} (n - length t) none,
            )))
        ∙ sym (ap as_slot (get_elem?_outside t fd (omega arith)))
  ]
]

length-grow : (n : ℕ) (t : Slots) → length t ≤ n → length (grow n t) ≡ n
unfolding grow
length-grow n t h = omega (
  arith,
  length-append t (replicate (n - length t) none),
  length-replicate {A = Option ℕ} (n - length t) none,
)

pub grown-length : (fd : ℕ) (t : Slots) → fd < length (grown fd t)
grown-length fd t = elim (Bool-cases (leb (length t) fd)) [
  | inl e ↦ rw e (ground (arith, length-grow (fd + 1) t))
  | inr e ↦ rw e (ground arith)
]

pub slot-grown : (fd j : ℕ) (t : Slots) → slot (grown fd t) j ≡ slot t j
slot-grown fd j t = elim (Bool-cases (leb (length t) fd)) [
  | inl e ↦ rw e (slot-grow (fd + 1) j t)
  | inr e ↦ rw e
]

-- The table after `setEntry` holds the new pointer at `fd`, and at every other descriptor what it
-- held before.
pub slot-put :
    (fd j : ℕ) (o : Option ℕ) (t : Slots) → slot (put fd o t) j ≡ (if j == fd then o else slot t j)
slot-put fd j o t = elim (Bool-cases (j == fd)) [
  | inl e ↦
      let same : j ≡ fd = (==_iff j fd).0 e in
      rw (e, same) (ap as_slot (get_elem?-set_self (grown fd t) fd o (grown-length fd t)))
  | inr e ↦
      rw e
        (ap as_slot (get_elem?-set_ne (grown fd t) fd j o (ne_of_test j fd e)) ∙ slot-grown fd j t)
]

below_suc :
    (o : ℕ) (t : Slots)
    → ((fd : ℕ) → fd < free_slot t → slot t fd ≢ none)
    → (fd : ℕ) → fd < suc (free_slot t)
    → slot (some o ∷ t) fd ≢ none
below_suc o t h zero k = λ e. cc
below_suc o t h (suc fd) k = h fd (omega arith)

-- `free_slot` is the lowest descriptor that is not open.
pub free_slot_lowest :
    (t : Slots) → (slot t (free_slot t) ≡ none) × ((fd : ℕ) → fd < free_slot t → slot t fd ≢ none)
unfolding free_slot
free_slot_lowest [] = (refl, λ fd h. absurd (omega arith))
free_slot_lowest (none ∷ t) = (refl, λ fd h. absurd (omega arith))
free_slot_lowest (some o ∷ t) = ((free_slot_lowest t).0, below_suc o t (free_slot_lowest t).1)

pub retain-table : (o : Option ℕ) (s t : Fs) → retain o s ≡ done tt t → t.table ≡ s.table
unfolding retain load_open store_open
retain-table none s t h = ground arith
retain-table (some o) s t h = ground arith

release-table :
    (o : Option ℕ) (s t : Fs) (c : Option FileId) → release o s ≡ done c t → t.table ≡ s.table
unfolding release load_open store_open load
release-table none s t c h = ground arith
release-table (some o) s t c h = ground arith

-- `setEntry` changes the table at `fd` alone.
pub set_entry-table :
    (fd : ℕ) (o : Option ℕ) (s t : Fs) (c : Option FileId)
    → set_entry fd o s ≡ done c t
    → t.table ≡ put fd o s.table
unfolding set_entry
set_entry-table fd o s t c h =
    let s0 = record s { table = grown fd s.table } in
    let (x, s1, r, k) = bind-done (retain o s0) _ h in
    let (y, s2, q, l) = bind-done (release (slot s1.table fd) s1) _ k in
    sym (ap (λ u. u.table) (done-injective l).1)
    ∙ ap (λ u. set u fd o) (release-table _ s1 s2 y q ∙ retain-table o s0 s1 r)

-- A descriptor that is given out was not open, and every lower one was. Afterwards it is open, for
-- the given open file, and every other descriptor is as before.
pub add_entry-lowest :
    (o : ℕ) (s t : Fs) (fd j : ℕ)
    → add_entry o s ≡ done fd t
    → (slot s.table fd ≡ none)
      × ((slot s.table j ≢ none) ⊎ (fd ≤ j))
      × (slot t.table j ≡ (if j == fd then some o else slot s.table j))
unfolding add_entry
add_entry-lowest o s t fd j h =
    let (x, u, r, k) = bind-done (set_entry (free_slot s.table) (some o) s) _ h in
    let e : free_slot s.table ≡ fd = (done-injective k).0 in
    let v : u ≡ t = (done-injective k).1 in
    let low = free_slot_lowest s.table in
    (
      rw e at low.0,
      elim (dec_lt j fd) [ yes p ↦ inl (low.1 j (rw e p)) | no p ↦ inr (omega arith) ],
      ap (λ w. slot w.table j) (sym v)
          ∙ ap (λ w. slot w j) (set_entry-table (free_slot s.table) (some o) s u x r)
          ∙ slot-put (free_slot s.table) j (some o) s.table
          ∙ ap (λ w. if j == w then some o else slot s.table j) e,
    )
