-- ===== src/Backends/IgnoreCase/Names.antt =====
-- Names in the backend that ignores their case.
use emscripten_memfswasm_wra.Base.{
  ◌∙◌, subst, ℕ, ◌<◌, ◌≡◌, inl, inr, refl, sym, ap, Option, none, some, [], ◌∷◌, ◌==◌, arith,
  Bool-cases, Option-cases,
}
use emscripten_memfswasm_wra.Base.Names.{Name, name_eq_refl}
use emscripten_memfswasm_wra.Store.{
  FileId, M, Out, done, fail, fault, out_of_fuel, update, load, kind_of,
}
use emscripten_memfswasm_wra.Directory
use emscripten_memfswasm_wra.Backends.Embedder.{returned, and_then, and_then-returned}
use emscripten_memfswasm_wra.Backends.IgnoreCase.{
  ChildInfo, Children, find_child, assign_child, name_of, Virtual, Icase, from_out, load_virtual,
  store_virtual, make_virtual, virtual_mode, virtualize, record_child, normalize, adopt, get_child,
  insert_data_file, get_name,
}

pub find-assign_child :
    (info : ChildInfo) (cs : Children) → find_child info.key (assign_child info cs) ≡ some info
unfolding find_child assign_child
find-assign_child info [] = rw (name_eq_refl info.key) refl
find-assign_child info (c ∷ cs) = ground (arith, name_eq_refl info.key, find-assign_child info cs)

-- No child has a number from `next` on.
abbrev pub Below : ℕ → Children → Type 0
Below next [] = Unit
Below next (c ∷ cs) = (c.child < next) × Below next cs

pub name_of-assign_child :
    (info : ChildInfo) (cs : Children)
    → Below info.child cs
    → name_of info.child (assign_child info cs) ≡ info.original_name
unfolding name_of assign_child
name_of-assign_child info [] h = ground (arith)
name_of-assign_child info (c ∷ cs) h = ground (arith, name_of-assign_child info cs h.1, h.0)

virtual_children : (v d : Virtual) → some v ≡ some d → v.children ≡ d.children
virtual_children v d e = cc

loaded_same :
    (st s0 : Icase) (dir : ℕ) (d : Virtual) → load_virtual dir st ≡ returned d s0 → st ≡ s0
unfolding load_virtual
loaded_same st s0 dir d h = ground (arith, h)

-- Each child has a number that was given out.
abbrev pub Numbered : Icase → Type 0
Numbered st = (dir : ℕ) (d : Virtual) → st.files dir ≡ some d → Below st.next d.children

module _ (lower : ℕ → ℕ) where
  -- The directory has the child under the name.
  abbrev pub Known : Icase → ℕ → Name → Name → ℕ → Type 0
  Known st dir key name c =
      (d : Virtual) × (st.files dir ≡ some d)
      × (find_child key d.children ≡ some (record { key = key; original_name = name; child = c }))

  Known-get_child :
      (st : Icase) (dir : ℕ) (a name : Name) (c : ℕ)
      → Known st dir (normalize lower a) name c
      → get_child lower dir a st ≡ returned (some c) st
  unfolding get_child load_virtual
  Known-get_child st dir a name c (d, here, found) = ground (arith, here, found)

  -- The same for a child that got the next number.
  abbrev pub Named : Icase → ℕ → Name → Name → ℕ → Type 0
  Named st dir key name c = Known st dir key name c × (get_name dir c st ≡ returned name st)

  recorded :
      (st t : Icase) (dir c : ℕ) (key name : Name)
      → ((d : Virtual) → st.files dir ≡ some d → Below c d.children)
      → record_child dir key name c st ≡ returned tt t
      → Named t dir key name c
  unfolding record_child load_virtual store_virtual get_name
  recorded st t dir c key name low h = elim (Option-cases (st.files dir)) [
    | inl gone ↦ ground (arith, h, gone)
    | inr (d, here) ↦
        let info : ChildInfo = record { key = key; original_name = name; child = c } in
        let d' : Virtual = record d { children = assign_child info d.children } in
        let e : record st { files = update st.files dir (some d') } ≡ t = ground (arith, h, here) in
        let there : t.files dir ≡ some d' = sym (ap (λ z. z.files dir) e) ∙ ground arith in
        let named = name_of-assign_child info d.children (low d here) in
        ((d', there, find-assign_child info d.children), ground (arith, there, named))
  ]

  virtualized :
      (st s1 : Icase) (real : FileId) (dir child : ℕ) (d : Virtual)
      → Numbered st
      → virtualize real st ≡ returned child s1
      → s1.files dir ≡ some d
      → Below child d.children
  unfolding virtualize make_virtual load
  virtualized st s1 real dir child d low h here = elim (Option-cases (st.real.files real)) [
    | inl gone ↦ ground (arith, h, gone)
    | inr (n, there) ↦
        let v : Virtual = record {
          kind = kind_of n.body;
          mode = virtual_mode n;
          real = real;
          parent = none;
          children = [];
        } in
        let e : (child ≡ st.next) × (s1.files dir ≡ update st.files st.next (some v) dir) =
          ground (arith, h, there) in
        elim (Bool-cases (dir == st.next)) [
          | inl q ↦
              let f : ◌≡◌ {A = Option Virtual} (some v) (some d) = ground (arith, q, e.1, here) in
              subst (λ z. Below child z) (virtual_children v d f) tt
          | inr q ↦
              let f : st.files dir ≡ some d = ground (arith, q, e.1, here) in
              subst (λ k. Below k d.children) (sym e.0) (low dir d f)
        ]
  ]

  adopted :
      (st t : Icase) (dir c : ℕ) (a : Name) (o : Option FileId)
      → Numbered st
      → adopt lower dir a o st ≡ returned (some c) t
      → Named t dir (normalize lower a) a c
  unfolding adopt
  adopted st t dir c a none low h = cc
  adopted st t dir c a (some real) low h =
      let (child, s1, made, rest) = and_then-returned (virtualize real st) _ h in
      let (u, s2, stored, last) =
        and_then-returned (record_child dir (normalize lower a) a child s1) _ rest in
      let same : child ≡ c = cc in
      let end : s2 ≡ t = cc in
      subst (λ z. Named z dir (normalize lower a) a c) end
        (subst (λ k. Named s2 dir (normalize lower a) a k) same
          (recorded s1 s2 dir child (normalize lower a) a
            (λ d here. virtualized st s1 real dir child d low made here) stored))

  asked :
      {A : Type 0} (m : M A) (st s1 : Icase) (o : A)
      → Numbered st
      → from_out m st ≡ returned o s1
      → Numbered s1
  asked {A = A} m st s1 o low h = asked_cases (m st.real) refl
    where
      asked_cases : (r : Out A) → m st.real ≡ r → Numbered s1
      asked_cases (done a s) e =
          let same : record st { real = s } ≡ s1 = ground (arith, h, e) in subst Numbered same low
      asked_cases (fail k s) e = ground (arith, h, e)
      asked_cases fault e = ground (arith, h, e)
      asked_cases out_of_fuel e = ground (arith, h, e)

  any_case :
      (st : Icase) (dir c : ℕ) (a b : Name)
      → normalize lower a ≡ normalize lower b
      → Known st dir (normalize lower a) a c
      → get_child lower dir b st ≡ returned (some c) st
  any_case st dir c a b same k =
      Known-get_child st dir b a c (subst (λ z. Known st dir z a c) same k)

  -- A child that was found under a name is found under each name that differs in case alone, as the
  -- same file, and finding it again changes nothing.
  get_child_any_case :
      (st t : Icase) (dir c : ℕ) (a b : Name)
      → Numbered st
      → normalize lower a ≡ normalize lower b
      → get_child lower dir a st ≡ returned (some c) t
      → get_child lower dir b t ≡ returned (some c) t
  unfolding get_child load_virtual
  get_child_any_case st t dir c a b low same h = elim (Option-cases (st.files dir)) [
    | inl gone ↦ ground (arith, h, gone)
    | inr (d, here) ↦ elim (Option-cases (find_child (normalize lower a) d.children)) [
      | inr (info, found) ↦ ground (arith, h, here, found, same)
      | inl unknown ↦
          let h' : and_then (from_out (Directory.get_child d.real (normalize lower a)) st)
                (adopt lower dir a)
              ≡ returned (some c) t =
            ground (arith, h, here, unknown) in
          let (o, s1, m, rest) = and_then-returned _ (adopt lower dir a) h' in
          let k =
            adopted s1 t dir c a o
              (asked (Directory.get_child d.real (normalize lower a)) st s1 o low m) rest in
          any_case t dir c a b same k.0
    ]
  ]

  -- A file that was inserted under a name is found under each name that differs in case alone, and
  -- its own name is the one that it was inserted under. Each child of the state has a number that was
  -- given out.
  pub insert_keeps_case :
      (st t : Icase) (dir mode c : ℕ) (a b : Name)
      → Numbered st
      → normalize lower a ≡ normalize lower b
      → insert_data_file lower dir a mode st ≡ returned (some c) t
      → (get_child lower dir b t ≡ returned (some c) t) × (get_name dir c t ≡ returned a t)
  unfolding insert_data_file
  insert_keeps_case st t dir mode c a b low same h =
      let (d, s0, loaded, rest) = and_then-returned (load_virtual dir st) _ h in
      let (o, s1, m, last) =
        and_then-returned (from_out (Directory.insert_data_file d.real (normalize lower a) mode) s0)
          _ rest in
      let same_state : st ≡ s0 = loaded_same st s0 dir d loaded in
      let (known, named) =
        adopted s1 t dir c a o
          (asked (Directory.insert_data_file d.real (normalize lower a) mode) s0 s1 o
            (subst Numbered same_state low) m)
          last in
      (any_case t dir c a b same known, named)
