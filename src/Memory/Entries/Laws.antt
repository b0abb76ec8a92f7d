-- ===== src/Memory/Entries/Laws.antt =====
-- Lookups after each change of the vector of entries.
use emscripten_memfswasm_wra.Base.{
  ℕ, ◌≡◌, refl, none, some, [], ◌∷◌, false, arith, if◌then◌else◌, Bool-cases, inl, inr, ap, ==_iff,
  ◌==◌, ◌∙◌,
}
use emscripten_memfswasm_wra.Base.Names.{Name, name_eq, name_eq_iff, name_eq_refl}
use emscripten_memfswasm_wra.Memory.Entries.{
  ChildEntry, Entries, find_entry, insert_child, erase_entry, erase_file, get_name,
}

-- No name stands twice in a directory.
abbrev pub Fresh : Name → Entries → Type 0
Fresh name [] = Unit
Fresh name (e ∷ es) = (name_eq e.name name ≡ false) × Fresh name es

abbrev pub NodupNames : Entries → Type 0
NodupNames [] = Unit
NodupNames (e ∷ es) = Fresh e.name es × NodupNames es

pub find-insert_child :
    (n m : Name) (c : ℕ) (es : Entries)
    → find_entry m es ≡ none
    → find_entry n (insert_child m c es) ≡ (if name_eq m n then some c else find_entry n es)
unfolding find_entry insert_child
find-insert_child n m c [] h = refl
find-insert_child n m c (e ∷ es) h =
    ground (
      arith,
      name_eq_iff e.name m,
      name_eq_iff e.name n,
      name_eq_iff m n,
      find-insert_child n m c es,
    )

pub find-erase_entry_ne :
    (n m : Name) (es : Entries)
    → name_eq m n ≡ false
    → find_entry n (erase_entry m es) ≡ find_entry n es
unfolding find_entry erase_entry
find-erase_entry_ne n m [] h = refl
find-erase_entry_ne n m (e ∷ es) h =
    ground (
      arith,
      name_eq_iff e.name m,
      name_eq_iff e.name n,
      name_eq_iff m n,
      find-erase_entry_ne n m es,
    )

find_of_Fresh : (m : Name) (es : Entries) → Fresh m es → find_entry m es ≡ none
unfolding find_entry
find_of_Fresh m [] h = refl
find_of_Fresh m (e ∷ es) h = ground (arith, find_of_Fresh m es h.1)

pub find-erase_entry_self :
    (m : Name) (es : Entries) → NodupNames es → find_entry m (erase_entry m es) ≡ none
unfolding find_entry erase_entry
find-erase_entry_self m [] h = refl
find-erase_entry_self m (e ∷ es) h =
    ground
      (arith, name_eq_iff e.name m, find_of_Fresh e.name es h.0, find-erase_entry_self m es h.1)

pub find-Fresh : (m : Name) (es : Entries) → find_entry m es ≡ none → Fresh m es
unfolding find_entry
find-Fresh m [] h = tt
find-Fresh m (e ∷ es) h = ground (arith, find-Fresh m es)

Fresh-insert_child :
    (n m : Name) (c : ℕ) (es : Entries)
    → name_eq m n ≡ false
    → Fresh n es
    → Fresh n (insert_child m c es)
unfolding insert_child
Fresh-insert_child n m c [] h f = (h, tt)
Fresh-insert_child n m c (e ∷ es) h f = (f.0, Fresh-insert_child n m c es h f.1)

pub NodupNames-insert_child :
    (m : Name) (c : ℕ) (es : Entries)
    → Fresh m es
    → NodupNames es
    → NodupNames (insert_child m c es)
unfolding insert_child
NodupNames-insert_child m c [] f h = (tt, tt)
NodupNames-insert_child m c (e ∷ es) f h = (
  Fresh-insert_child e.name m c es (ground (arith, name_eq_iff e.name m, name_eq_iff m e.name, f.0))
      h.0,
  NodupNames-insert_child m c es f.1 h.1,
)

Fresh-erase_entry : (n m : Name) (es : Entries) → Fresh n es → Fresh n (erase_entry m es)
unfolding erase_entry
Fresh-erase_entry n m [] f = tt
Fresh-erase_entry n m (e ∷ es) f = elim (Bool-cases (name_eq e.name m)) [
  | inl q ↦ rw q f.1
  | inr q ↦ rw q (f.0, Fresh-erase_entry n m es f.1)
]

pub NodupNames-erase_entry :
    (m : Name) (es : Entries) → NodupNames es → NodupNames (erase_entry m es)
unfolding erase_entry
NodupNames-erase_entry m [] h = tt
NodupNames-erase_entry m (e ∷ es) h = elim (Bool-cases (name_eq e.name m)) [
  | inl q ↦ rw q h.1
  | inr q ↦ rw q (Fresh-erase_entry e.name m es h.0, NodupNames-erase_entry m es h.1)
]

-- What is found after an erasure was found before it.
pub find-erase_entry :
    (n m : Name) (c : ℕ) (es : Entries)
    → NodupNames es
    → find_entry n (erase_entry m es) ≡ some c
    → find_entry n es ≡ some c
unfolding find_entry erase_entry
find-erase_entry n m c [] nodup h = h
find-erase_entry n m c (e ∷ es) nodup h = ground (
  arith,
  name_eq_iff e.name m,
  name_eq_iff e.name n,
  name_eq_iff m n,
  find-erase_entry n m c es nodup.1,
  find_of_Fresh e.name es nodup.0,
)

pub erase_entry-missing : (m : Name) (es : Entries) → find_entry m es ≡ none → erase_entry m es ≡ es
unfolding find_entry erase_entry
erase_entry-missing m [] h = refl
erase_entry-missing m (e ∷ es) h = ground (arith, erase_entry-missing m es)

find_entry-cons :
    (n : Name) (f : ℕ) (e : ChildEntry) (es : Entries)
    → Fresh e.name es
    → find_entry n es ≡ some f
    → find_entry n (e ∷ es) ≡ some f
unfolding find_entry
find_entry-cons n f e es fresh h =
    ground (arith, name_eq_iff e.name n, find_of_Fresh e.name es fresh, h)

find_entry_head : (e : ChildEntry) (es : Entries) → find_entry e.name (e ∷ es) ≡ some e.child
unfolding find_entry
find_entry_head e es = rw (name_eq_refl e.name)

-- Where a file stands under one name alone, erasing the file is erasing the name.
pub erase_file-eq :
    (f : ℕ) (m : Name) (es : Entries)
    → NodupNames es
    → ((a b : Name) → find_entry a es ≡ some f → find_entry b es ≡ some f → a ≡ b)
    → find_entry m es ≡ some f
    → erase_file f es ≡ erase_entry m es
unfolding find_entry erase_entry erase_file
erase_file-eq f m [] nodup once h = refl
erase_file-eq f m (e ∷ es) nodup once h = elim (Bool-cases (e.child == f)) [
  | inl q ↦
      let same : e.name ≡ m =
        once e.name m (find_entry_head e es ∙ ap some ((==_iff e.child f).0 q)) h in
      rw (q, (name_eq_iff e.name m).1 same)
  | inr q ↦
      let other : name_eq e.name m ≡ false = ground (arith, q, h) in
      let rest : find_entry m es ≡ some f = rw other at h in
      rw (q, other)
        (ap (λ t. e ∷ t)
          (erase_file-eq f m es nodup.1
            (λ a b u v.
              once a b (find_entry-cons a f e es nodup.0 u) (find_entry-cons b f e es nodup.0 v))
            rest))
]

-- A child with one name has that name.
pub get_name-find_entry :
    (f : ℕ) (m : Name) (es : Entries)
    → NodupNames es
    → ((a b : Name) → find_entry a es ≡ some f → find_entry b es ≡ some f → a ≡ b)
    → find_entry m es ≡ some f
    → get_name f es ≡ m
unfolding find_entry get_name
get_name-find_entry f m [] nodup once h = cc
get_name-find_entry f m (e ∷ es) nodup once h = elim (Bool-cases (e.child == f)) [
  | inl q ↦ rw q (once e.name m (find_entry_head e es ∙ ap some ((==_iff e.child f).0 q)) h)
  | inr q ↦
      let other : name_eq e.name m ≡ false = ground (arith, q, h) in
      let rest : find_entry m es ≡ some f = rw other at h in
      rw q (
        get_name-find_entry f m es nodup.1
          (λ a b u v.
            once a b (find_entry-cons a f e es nodup.0 u) (find_entry-cons b f e es nodup.0 v))
          rest)
]
