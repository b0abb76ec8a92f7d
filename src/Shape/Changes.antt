-- ===== src/Shape/Changes.antt =====
-- Single changes of a state that is in shape.
use emscripten_memfswasm_wra.Base.{
  ◌∙◌, ℕ, ◌+◌, ◌≡◌, ◌≢◌, ◌⊎◌, inl, inr, refl, sym, ap, Option, some, [], ◌∷◌, ◌==◌, arith,
  Bool-cases, ==_iff,
}
use emscripten_memfswasm_wra.Base.Names.{Name, name_eq, name_lt}
use emscripten_memfswasm_wra.Memory.Entries.{
  find_entry, find_cached, mount, Cached, DCache, insert_cached, erase_cached,
}
use emscripten_memfswasm_wra.Store.{FileId, directory, Dir, File, Fs, update}
use emscripten_memfswasm_wra.Directory.Tree.{HasEntries, some-same, no_entry_in_nil}
use emscripten_memfswasm_wra.Directory.Tree.Changes.{with_file, set_parent-IsTree}
use emscripten_memfswasm_wra.Directory.Tree.Changes
use emscripten_memfswasm_wra.Shape.{IsShaped, AreMounts}

-- The dcache of mount points.
pub find_cached-mount :
    (name : Name) (cs : DCache) (c : Cached)
    → AreMounts cs
    → find_cached name cs ≡ some c
    → c.kind ≡ mount
unfolding find_cached
find_cached-mount name [] c h e = cc
find_cached-mount name (d ∷ ds) c h e = elim (Bool-cases (name_eq d.name name)) [
  | inl q ↦ let same : d ≡ c = some-same d c (rw q at e) in sym (ap (λ z. z.kind) same) ∙ h.0
  | inr q ↦ find_cached-mount name ds c h.1 (rw q at e)
]

pub AreMounts-erase_cached :
    (name : Name) (cs : DCache) → AreMounts cs → AreMounts (erase_cached name cs)
unfolding erase_cached
AreMounts-erase_cached name [] h = tt
AreMounts-erase_cached name (d ∷ ds) h = elim (Bool-cases (name_eq d.name name)) [
  | inl q ↦ rw q h.1
  | inr q ↦ rw q (h.0, AreMounts-erase_cached name ds h.1)
]

pub AreMounts-insert_cached :
    (c : Cached) (cs : DCache) → c.kind ≡ mount → AreMounts cs → AreMounts (insert_cached c cs)
unfolding insert_cached
AreMounts-insert_cached c [] k h = (k, tt)
AreMounts-insert_cached c (d ∷ ds) k h = elim (Bool-cases (name_lt c.name d.name)) [
  | inl q ↦ rw q (k, h)
  | inr q ↦ rw q (h.0, AreMounts-insert_cached c ds k h.1)
]

-- A new record for a file, with the same parent and entries.
module _ (s : Fs) (f : FileId) (m m' : File) (shape : IsShaped s) (here : s.files f ≡ some m)
    (parent' : m'.parent ≡ m.parent)
    (dirs : (y : Dir)
      → m'.body ≡ directory y
      → (x : Dir) × (m.body ≡ directory x) × (y.entries ≡ x.entries) × AreMounts y.dcache) where
  pub old_entries :
      (d : FileId) (y : Dir)
      → HasEntries (with_file s f m') d y
      → (x : Dir) × HasEntries s d x × (y.entries ≡ x.entries) × AreMounts y.dcache
  old_entries d y (k, there, is_dir) = elim (Bool-cases (d == f)) [
    | inl r ↦
        let e : ◌≡◌ {A = Option File} (some m') (some k) = rw r at there in
        let (x, body, same, all) = dirs y (ap (λ z. z.body) (some-same m' k e) ∙ is_dir) in
        (x, (m, ap s.files ((==_iff d f).0 r) ∙ here, body), same, all)
    | inr r ↦
        let h : HasEntries s d y = (k, rw r at there, is_dir) in (y, h, refl, shape.mounted d y h)
  ]

  kept :
      (j : FileId) (k : File)
      → s.files j ≡ some k
      → (k' : File) × ((with_file s f m').files j ≡ some k') × (k'.parent ≡ k.parent)
  kept j k h = elim (Bool-cases (j == f)) [
    | inl q ↦
        let e : some m ≡ some k = sym here ∙ ap s.files (sym ((==_iff j f).0 q)) ∙ h in
        (m', rw q, parent' ∙ ap (λ z. z.parent) (some-same m k e))
    | inr q ↦ (k, rw q h, refl)
  ]

  pub recached-IsShaped : IsShaped (with_file s f m')
  recached-IsShaped = record {
    tree = record {
      unused = λ j h. ground (arith, shape.tree.unused j h, shape.tree.unused f, here);
      names = λ d y h.
          let (x, old, same, all) = old_entries d y h in rw same (shape.tree.names d x old);
      single = λ d y c a b h u v.
          let (x, old, same, all) = old_entries d y h in
          shape.tree.single d x c a b old (rw same at u) (rw same at v);
      children = λ d y c a h u.
          let (x, old, same, all) = old_entries d y h in
          let (k, there, above) = shape.tree.children d x c a old (rw same at u) in
          let (k', there', kept_parent) = kept c k there in (k', there', kept_parent ∙ above);
    };
    proper = λ d y a h u.
        let (x, old, same, all) = old_entries d y h in shape.proper d x a old (rw same at u);
    mounted = λ d y h. let (x, old, same, all) = old_entries d y h in all;
  }

-- The same where the body too stays, or is that of no directory.
pub touched-IsShaped :
    (s : Fs) (f : FileId) (m m' : File)
    → IsShaped s
    → s.files f ≡ some m
    → m'.parent ≡ m.parent
    → ((y : Dir) → m'.body ≡ directory y → m.body ≡ directory y)
    → IsShaped (with_file s f m')
touched-IsShaped s f m m' shape here parent' dirs =
    recached-IsShaped s f m m' shape here parent'
      λ y b. (y, dirs y b, refl, shape.mounted f y (m, here, dirs y b))

-- A file that is an entry of no directory may get any parent.
pub reparented-IsShaped :
    (s : Fs) (f : FileId) (m : File) (q : Option FileId)
    → IsShaped s
    → s.files f ≡ some m
    → ((d : FileId) (y : Dir) (a : Name) → HasEntries s d y → find_entry a y.entries ≢ some f)
    → IsShaped (with_file s f (record m { parent = q }))
reparented-IsShaped s f m q shape here loose =
    let old = Changes.old_entries s f m q shape.tree here loose in
    record {
      tree = set_parent-IsTree s f m q shape.tree here loose;
      proper = λ d y a h. shape.proper d y a (old d y h);
      mounted = λ d y h. shape.mounted d y (old d y h);
    }

-- A directory that was just made.
abbrev pub no_children : Dir
no_children = record { entries = []; dcache = [] }

-- A new file.
module _ (s : Fs) (n : File) (k : ℕ) (shape : IsShaped s)
    (childless : (y : Dir) → n.body ≡ directory y → y ≡ no_children) where
  abbrev pub with_new : Fs
  with_new = record s {
    files = update s.files s.next_file (some n);
    next_file = s.next_file + 1;
    calls = k;
  }

  new_cases :
      (d : FileId) (y : Dir) → HasEntries with_new d y → (y ≡ no_children) ⊎ HasEntries s d y
  new_cases d y (m, there, is_dir) = elim (Bool-cases (d == s.next_file)) [
    | inl r ↦
        let e : ◌≡◌ {A = Option File} (some n) (some m) = rw r at there in
        inl (childless y (ap (λ z. z.body) (some-same n m e) ∙ is_dir))
    | inr r ↦ inr (m, rw r at there, is_dir)
  ]

  kept_file : (j : FileId) (m : File) → s.files j ≡ some m → with_new.files j ≡ some m
  kept_file j m h = ground (arith, shape.tree.unused j, h)

  pub new_loose :
      (d : FileId) (y : Dir) (a : Name)
      → HasEntries with_new d y
      → find_entry a y.entries ≢ some s.next_file
  new_loose d y a h u = elim (new_cases d y h) [
    | inl e ↦ no_entry_in_nil a s.next_file (rw e at u)
    | inr old ↦
        let (m, there, above) = shape.tree.children d y s.next_file a old u in
        let gone = shape.tree.unused s.next_file (omega arith) in cc
  ]

  pub with_new-IsShaped : IsShaped with_new
  with_new-IsShaped = record {
    tree = record {
      unused = λ f h. ground (arith, shape.tree.unused f);
      names =
          λ d y h. elim (new_cases d y h) [ inl e ↦ rw e tt | inr old ↦ shape.tree.names d y old ];
      single = λ d y c a b h u v. elim (new_cases d y h) [
        | inl e ↦ absurd (no_entry_in_nil a c (rw e at u))
        | inr old ↦ shape.tree.single d y c a b old u v
      ];
      children = λ d y c a h u. elim (new_cases d y h) [
        | inl e ↦ absurd (no_entry_in_nil a c (rw e at u))
        | inr old ↦
            let (m, there, above) = shape.tree.children d y c a old u in
            (m, kept_file c m there, above)
      ];
    };
    proper = λ d y a h u. elim (new_cases d y h) [
      | inl e ↦ no_entry_in_nil a d (rw e at u)
      | inr old ↦ shape.proper d y a old u
    ];
    mounted = λ d y h. elim (new_cases d y h) [ inl e ↦ rw e tt | inr old ↦ shape.mounted d y old ];
  }
