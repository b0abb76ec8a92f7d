-- ===== src/Paths/Fuel.antt =====
-- The fuel of path resolution in wasmfs/paths.cpp, against the limit on links.
use emscripten_memfswasm_wra.Base.{
  leb, length, ℕ, ◌⊎◌, refl, ◌==◌, zero, suc, ◌+◌, ◌≤◌, ◌≡◌, ◌≢◌, Bool, true, Option, some, List,
  [], ◌∷◌, arith, Bool-cases, Option-cases, inl, inr,
}
use emscripten_memfswasm_wra.Base.Names.{Name, name_eq, codes}
use emscripten_memfswasm_wra.Store.{
  load_open, Body, DataImpl, data_file, directory, symlink, FileId, Dir, is_directory, Fs,
  out_of_fuel, load, get_parent, set_parent, store,
}
use emscripten_memfswasm_wra.Store.Ends.{Ends, Stops, Ends-bind, Ends-mono, Stops-of_ne, ne_of_Ends}
use emscripten_memfswasm_wra.Memory.Entries.{Cached, DCacheKind, normal, find_cached, find_entry}
use emscripten_memfswasm_wra.Directory.{
  is_mount, get_child, look_up, cache_child, update_cache, load_dir, store_dir,
}
use emscripten_memfswasm_wra.Table.{get_entry}
use emscripten_memfswasm_wra.Paths.{
  Follow, child_with, walk, relative_parent_with, parent_with, file_with, follow, parse_file,
  parse_parent, get_open, get_base_dir, max_recursions, link_fuel, slash, strip_trailing, segments,
}

load_dir-ne : (f : FileId) (s : Fs) → load_dir f s ≢ out_of_fuel
unfolding load_dir load
load_dir-ne f s e = ground arith

set_parent-ne : (f : FileId) (p : Option FileId) (s : Fs) → set_parent f p s ≢ out_of_fuel
unfolding set_parent
set_parent-ne f p s e = ground arith

get_parent-ne : (f : FileId) (s : Fs) → get_parent f s ≢ out_of_fuel
unfolding get_parent
get_parent-ne f s e = ground arith

store_dir-ne : (f : FileId) (d : Dir) (s : Fs) → store_dir f d s ≢ out_of_fuel
unfolding store_dir load store
store_dir-ne f d s e = ground arith

update_cache-ne : (f : FileId) (d : Dir) (c : Cached) (s : Fs) → update_cache f d c s ≢ out_of_fuel
unfolding update_cache
update_cache-ne f d c s e = elim (Bool-cases (is_mount c.kind)) [
  | inl h ↦ store_dir-ne f _ s (rw h at e)
  | inr h ↦ cc (rw h at e)
]

cache_child-Stops :
    (d : FileId) (n : Name) (c : FileId) (k : DCacheKind) (s : Fs) → Stops (cache_child d n c k s)
unfolding cache_child
cache_child-Stops d n c k s =
    Ends-bind _ _ (load_dir d s) _ (Stops-of_ne _ (load_dir-ne d s)) λ x t _.
      Ends-bind _ _ (update_cache d x _ t) _ (Stops-of_ne _ (update_cache-ne d x _ t))
        λ _ u _. Stops-of_ne _ (set_parent-ne c (some d) u)

look_up-Stops : (d : FileId) (n : Name) (s : Fs) → Stops (look_up d n s)
unfolding look_up
look_up-Stops d n s = Ends-bind _ _ (load_dir d s) _ (Stops-of_ne _ (load_dir-ne d s)) λ x t _.
    elim (Option-cases (find_cached n x.dcache)) [
      | inr (c, h) ↦ rw h tt
      | inl h ↦ elim (Option-cases (find_entry n x.entries)) [
        | inl g ↦ rw (h, g) tt
        | inr (c, g) ↦
            rw (h, g)
              (Ends-bind _ _ (cache_child d n c normal t) _ (cache_child-Stops d n c normal t)
                λ _ u _. tt)
      ]
    ]

pub get_child-Stops : (d : FileId) (n : Name) (s : Fs) → Stops (get_child d n s)
unfolding get_child
get_child-Stops d n s =
    Ends-bind _ _ (get_parent d s) _ (Stops-of_ne _ (get_parent-ne d s)) λ o t _.
      elim (Option-cases o) [
        | inl h ↦ rw h tt
        | inr (p, h) ↦ elim (Bool-cases (name_eq n (codes "."))) [
          | inl g ↦ rw (h, g) tt
          | inr g ↦ elim (Bool-cases (name_eq n (codes ".."))) [
            | inl k ↦ rw (h, g, k) tt
            | inr k ↦ rw (h, g, k) (look_up-Stops d n t)
          ]
        ]
      ]

List-cases : (l : Name) → (l ≡ []) ⊎ ((c : ℕ) × (cs : Name) × (l ≡ c ∷ cs))
List-cases [] = inl refl
List-cases (c ∷ cs) = inr (c, cs, refl)

-- What a link-following loop finds: a link, or something that it returns.
link-cases :
    (b : Body)
    → ((d : DataImpl) × (b ≡ data_file d))
      ⊎ ((d : Dir) × (b ≡ directory d))
      ⊎ ((t : Name) × (b ≡ symlink t))
link-cases (data_file d) = inl (d, refl)
link-cases (directory d) = inr (inl (d, refl))
link-cases (symlink t) = inr (inr (t, refl))

load-ne : (f : FileId) (s : Fs) → load f s ≢ out_of_fuel
unfolding load
load-ne f s e = ground arith

-- The count of links is within the limit, and the fuel covers what is left of it.
abbrev Budget : ℕ → ℕ → Type 0
Budget fuel r = (link_fuel ≤ fuel + r) × (r ≤ max_recursions)

abbrev Counted : ℕ → ℕ → Type 0
Counted r r' = (r ≤ r') × (r' ≤ max_recursions)

-- What is assumed of the link-following loop that a resolution is given: it ends from any count of
-- links that the fuel covers, and the count does not fall.
abbrev Covers : ℕ → Follow → Type 0
Covers fuel F =
    (d c : FileId) (r : ℕ) (s : Fs) → Budget fuel r → Ends (λ x. Counted r x.1) (F d c r s)

module _ (fuel : ℕ) (F : Follow) (covers : Covers fuel F) where
  child_with-Ends :
      (d : FileId) (n : Name) (links : Bool) (r : ℕ) (s : Fs)
      → Budget fuel r
      → Ends (λ x. Counted r x.1) (child_with F d n links r s)
  unfolding child_with
  child_with-Ends d n links r s h =
      Ends-bind _ _ (get_child d n s) _ (get_child-Stops d n s) λ o t _. elim (Option-cases o) [
        | inl g ↦ rw g tt
        | inr (c, g) ↦ elim (Bool-cases links) [
          | inl k ↦ rw (g, k) (covers d c r t h)
          | inr k ↦ rw (g, k) (omega arith)
        ]
      ]

  walk-Ends :
      (curr : FileId) (names : List Name) (r : ℕ) (s : Fs)
      → Budget fuel r
      → Ends (λ x. Counted r x.2) (walk F curr names r s)
  unfolding walk
  walk-Ends curr [] r s h = omega arith
  walk-Ends curr (leaf ∷ []) r s h = omega arith
  walk-Ends curr (segment ∷ next ∷ rest) r s h =
      Ends-bind _ _ (child_with F curr segment true r s) _ (child_with-Ends curr segment true r s h)
        λ x t hx. Ends-bind _ _ (load x.0 t) _ (Stops-of_ne _ (load-ne x.0 t)) λ n u _.
          elim (Bool-cases (is_directory n.body)) [
            | inr k ↦ rw k tt
            | inl k ↦ rw k (
                Ends-mono _ _ (walk F x.0 (next ∷ rest) x.1 u)
                  (walk-Ends x.0 (next ∷ rest) x.1 u (omega arith)) λ y hy. omega arith)
          ]

  relative-Ends :
      (path : Name) (curr : FileId) (r : ℕ) (s : Fs)
      → Budget fuel r
      → Ends (λ x. Counted r x.2) (relative_parent_with F path curr r s)
  unfolding relative_parent_with
  relative-Ends path curr r s h = elim (List-cases (strip_trailing path)) [
    | inl e ↦ rw (e, relative_parent_with) (omega arith)
    | inr (c, cs, e) ↦ rw (e, relative_parent_with) (walk-Ends curr (segments (c ∷ cs)) r s h)
  ]

  parent_with-Ends :
      (path : Name) (curr : FileId) (r : ℕ) (s : Fs)
      → Budget fuel r
      → Ends (λ x. Counted r x.2) (parent_with F path curr r s)
  unfolding parent_with
  parent_with-Ends [] curr r s h = tt
  parent_with-Ends (c ∷ cs) curr r s h = elim (Bool-cases (c == slash)) [
    | inl e ↦ rw e (relative-Ends cs s.root r s h)
    | inr e ↦ rw e (relative-Ends (c ∷ cs) curr r s h)
  ]

  file_with-Ends :
      (path : Name) (base : FileId) (links : Bool) (r : ℕ) (s : Fs)
      → Budget fuel r
      → Ends (λ x. Counted r x.1) (file_with F path base links r s)
  unfolding file_with
  file_with-Ends path base links r s h =
      Ends-bind _ _ (parent_with F path base r s) _ (parent_with-Ends path base r s h) λ x t hx.
        Ends-mono _ _ (child_with F x.0 x.1 links x.2 t)
          (child_with-Ends x.0 x.1 links x.2 t (omega arith)) λ y hy. omega arith

-- Each link that is followed takes one unit of fuel and counts one.
follow-Covers : (fuel : ℕ) → Covers fuel (follow fuel)
unfolding follow
follow-Covers zero d c r s h = absurd (omega arith)
follow-Covers (suc fuel) d c r s h =
    Ends-bind _ _ (load c s) _ (Stops-of_ne _ (load-ne c s)) λ n t _. elim (link-cases n.body) [
      | inl (_, k) ↦ rw k (omega arith)
      | inr (inl (_, k)) ↦ rw k (omega arith)
      | inr (inr (target, k)) ↦ elim (Bool-cases (leb (max_recursions + 1) (r + 1))) [
        | inl over ↦ rw (k, over) tt
        | inr more ↦ elim (Bool-cases (length target == 0)) [
          | inl e ↦ rw (k, more, e) tt
          | inr e ↦
              rw (k, more, e)
                (Ends-bind _ _ (file_with (follow fuel) target d true (r + 1) t) _
                  (file_with-Ends fuel (follow fuel) (follow-Covers fuel) target d true (r + 1) t
                    (ground arith))
                  λ x u hx.
                    Ends-mono _ _ (follow fuel d x.0 x.1 u)
                      (follow-Covers fuel d x.0 x.1 u (ground arith)) λ y hy. omega arith)
        ]
      ]
    ]

get_open-ne : (fd : ℕ) (s : Fs) → get_open fd s ≢ out_of_fuel
unfolding get_open get_entry
get_open-ne fd s e = ground arith

get_base_dir-ne : (fd : ℕ) (s : Fs) → get_base_dir fd s ≢ out_of_fuel
unfolding get_base_dir get_entry load_open load
get_base_dir-ne fd s e = ground arith

-- A path is resolved in every state of the tree: neither `parseFile` nor `parseParent` is cut off.
pub parse_stops :
    (path : Name) (fd : ℕ) (links : Bool) (s : Fs)
    → (parse_file path fd links s ≢ out_of_fuel) × (parse_parent path fd s ≢ out_of_fuel)
unfolding parse_file parse_parent
parse_stops path fd links s = (
  ne_of_Ends (λ _. Unit {0}) _
      (Ends-bind _ _ (get_base_dir fd s) _ (Stops-of_ne _ (get_base_dir-ne fd s)) λ base t _.
        Ends-bind _ _ (file_with (follow link_fuel) path base links 0 t) _
          (file_with-Ends link_fuel (follow link_fuel) (follow-Covers link_fuel) path base links 0 t
            (omega arith))
          λ x u hx. tt),
  ne_of_Ends (λ _. Unit {0}) _
      (Ends-bind _ _ (get_base_dir fd s) _ (Stops-of_ne _ (get_base_dir-ne fd s)) λ base t _.
        Ends-bind _ _ (parent_with (follow link_fuel) path base 0 t) _
          (parent_with-Ends link_fuel (follow link_fuel) (follow-Covers link_fuel) path base 0 t
            (omega arith))
          λ x u hx. tt),
)
