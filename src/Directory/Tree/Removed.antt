-- ===== src/Directory/Tree/Removed.antt =====
-- Removal of a child and the shape of the tree.
use emscripten_memfswasm_wra.Base.{
  ◌∙◌, ◌≡◌, ◌≢◌, ◌⊎◌, inl, inr, refl, sym, ap, true, false, Option, none, some, ◌==◌, arith,
  Bool-cases, ==_iff, ne_of_test,
}
use emscripten_memfswasm_wra.Base.Names.{Name, name_eq, name_eq_iff}
use emscripten_memfswasm_wra.Memory.Entries.{find_entry, find_cached, erase_entry}
use emscripten_memfswasm_wra.Memory.Entries.Laws.{
  NodupNames-erase_entry, find-erase_entry_ne, find-erase_entry_self,
}
use emscripten_memfswasm_wra.Store.{FileId, directory, Dir, File, Fs, done}
use emscripten_memfswasm_wra.Directory.Lookup.{IsLinked}
use emscripten_memfswasm_wra.Directory.Remove.{after_remove, look_up-remove, remove_child-eq}
use emscripten_memfswasm_wra.Directory.{look_up, remove_child}
use emscripten_memfswasm_wra.Directory.Tree.{HasEntries, IsTree, some-same, directory-same}

none≢some_entry : {j : FileId} (o : Option FileId) → o ≡ none → o ≡ some j → ⊥
none≢some_entry o e f = cc

true≢false_test : true ≢ false
true≢false_test e = cc

module _ (s : Fs) (dir p : FileId) (n : File) (x : Dir) (c : FileId) (m : File) (name : Name)
    (linked : IsLinked s dir p n x) (tree : IsTree s) (found : find_entry name x.entries ≡ some c)
    (child : s.files c ≡ some m) where
  abbrev t : Fs
  t = after_remove s dir n x c m name

  abbrev pub x1 : Dir
  x1 = record x { entries = erase_entry name x.entries }

  abbrev n1 : File
  n1 = record n { body = directory x1; mtime = s.host.date_now s.calls }

  own : HasEntries s dir x
  own = (n, linked.here, linked.body)

  -- A directory after the removal is the one that was changed, or an old one.
  pub removed_dirs :
      (d : FileId) (y : Dir)
      → HasEntries t d y
      → ((d ≡ dir) × (y ≡ x1)) ⊎ ((dir ≢ d) × HasEntries s d y)
  removed_dirs d y (k, here, is_dir) = elim (Bool-cases (d == dir)) [
    | inl q ↦
        let e : ◌≡◌ {A = Option File} (some n1) (some k) = rw q at here in
        inl (
          (==_iff d dir).0 q,
          sym (directory-same x1 y (ap (λ z. z.body) (some-same n1 k e) ∙ is_dir)),
        )
    | inr q ↦ elim (Bool-cases (d == c)) [
      | inl r ↦
          let e : ◌≡◌ {A = Option File} (some (record m { parent = none })) (some k) =
            rw (q, r) at here in
          let b : m.body ≡ directory y = ap (λ z. z.body) (some-same _ k e) ∙ is_dir in
          let f : s.files d ≡ some m = ap s.files ((==_iff d c).0 r) ∙ child in
          inr (ne_of_test d dir q, (m, f, b))
      | inr r ↦ inr (ne_of_test d dir q, (k, rw (q, r) at here, is_dir))
    ]
  ]

  removed_cases :
      (d : FileId) (y : Dir)
      → HasEntries t d y
      → ((d ≡ dir) × (y.entries ≡ erase_entry name x.entries)) ⊎ ((dir ≢ d) × HasEntries s d y)
  removed_cases d y h = elim (removed_dirs d y h) [
    | inl (e, q) ↦ inl (e, ap (λ z. z.entries) q)
    | inr old ↦ inr old
  ]

  -- A file other than the child keeps its parent.
  kept :
      (j : FileId) (k : File)
      → j ≢ c
      → s.files j ≡ some k
      → (k' : File) × (t.files j ≡ some k') × (k'.parent ≡ k.parent)
  kept j k ne h = elim (Bool-cases (j == dir)) [
    | inl q ↦
        let e : some n ≡ some k = sym linked.here ∙ ap s.files (sym ((==_iff j dir).0 q)) ∙ h in
        (n1, rw q, ap (λ z. z.parent) (some-same n k e))
    | inr q ↦ (k, ground (arith, q, h, ne), refl)
  ]

  erased_child :
      (a : Name) (j : FileId)
      → find_entry a (erase_entry name x.entries) ≡ some j
      → (find_entry a x.entries ≡ some j) × (j ≢ c)
  erased_child a j h = elim (Bool-cases (name_eq name a)) [
    | inl q ↦
        let same : name ≡ a = (name_eq_iff name a).0 q in
        let none_there = find-erase_entry_self name x.entries (tree.names dir x own) in
        let some_there : find_entry name (erase_entry name x.entries) ≡ some j =
          ap (λ z. find_entry z (erase_entry name x.entries)) same ∙ h in
        absurd (none≢some_entry _ none_there some_there)
    | inr q ↦
        let u : find_entry a x.entries ≡ some j =
          sym (find-erase_entry_ne a name x.entries q) ∙ h in
        (
          u,
          λ e.
              let same = tree.single dir x c name a own found (u ∙ ap some e) in
              absurd (true≢false_test (sym ((name_eq_iff name a).1 same) ∙ q)),
        )
  ]

  -- A child of another directory is not the one that was removed.
  elsewhere :
      (d : FileId) (y : Dir) (j : FileId) (a : Name)
      → HasEntries s d y
      → dir ≢ d
      → find_entry a y.entries ≡ some j
      → j ≢ c
  elsewhere d y j a h ne u e =
      let (k, here, above) = tree.children d y j a h u in
      let (k', here', above') = tree.children dir x c name own found in
      let same : k' ≡ k = some-same k' k (sym here' ∙ ap s.files (sym e) ∙ here) in
      ne (some-same dir d (sym above' ∙ ap (λ z. z.parent) same ∙ above))

  -- Removing a child keeps the tree in shape.
  pub after_remove-IsTree : IsTree t
  after_remove-IsTree = record {
    unused =
        λ f h. ground (arith, tree.unused f, linked.here, child, tree.unused dir, tree.unused c);
    names = λ d y h. elim (removed_cases d y h) [
      | inl (e, q) ↦ rw q (NodupNames-erase_entry name x.entries (tree.names dir x own))
      | inr (ne, old) ↦ tree.names d y old
    ];
    single = λ d y j a b h u v. elim (removed_cases d y h) [
      | inl (e, q) ↦
          tree.single dir x j a b own (erased_child a j (rw q at u)).0
            (erased_child b j (rw q at v)).0
      | inr (ne, old) ↦ tree.single d y j a b old u v
    ];
    children = λ d y j a h u. elim (removed_cases d y h) [
      | inl (e, q) ↦
          let (u', ne) = erased_child a j (rw q at u) in
          let (k, here, above) = tree.children dir x j a own u' in
          let (k', there, same) = kept j k ne here in (k', there, same ∙ rw e above)
      | inr (ne, old) ↦
          let (k, here, above) = tree.children d y j a old u in
          let (k', there, same) = kept j k (elsewhere d y j a old ne u) here in
          (k', there, same ∙ above)
    ];
  }

  -- In a tree that is in shape, `removeChild` of a child of a linked directory succeeds, where no cached
  -- entry has the name and the child is not the directory itself. The tree keeps its shape, the name
  -- is then free, and the child has no parent.
  pub remove_child-IsTree :
      find_cached name x.dcache ≡ none
      → c ≢ dir
      → (u : Fs) × (remove_child dir name s ≡ done tt u)
        × IsTree u
        × (look_up dir name u ≡ done none u)
        × (u.files c ≡ some (record m { parent = none }))
  remove_child-IsTree unmounted other =
      let l =
        look_up-remove s dir p n x c m name linked unmounted found child other
          (tree.names dir x own) in
      (
        t,
        remove_child-eq s dir p n x c m name linked unmounted found child other,
        after_remove-IsTree,
        l.0,
        l.1,
      )
