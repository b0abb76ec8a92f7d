-- ===== src/Directory/Tree/Inserted.antt =====
-- Insertion of a child and the shape of the tree.
use emscripten_memfswasm_wra.Base.{
  ◌∙◌, ℕ, ◌+◌, ◌≡◌, ◌≢◌, ◌⊎◌, inl, inr, refl, sym, ap, true, false, Option, none, some, [], ◌==◌,
  arith, Bool-cases, ==_iff, ne_of_test,
}
use emscripten_memfswasm_wra.Base.Names.{Name, name_eq_iff}
use emscripten_memfswasm_wra.Memory.Entries.{find_entry, find_cached, insert_child}
use emscripten_memfswasm_wra.Memory.Entries.Laws.{
  find-Fresh, NodupNames-insert_child, find-insert_child,
}
use emscripten_memfswasm_wra.Store.{FileId, Body, directory, Dir, File, Fs, done}
use emscripten_memfswasm_wra.Directory.Lookup.{IsLinked}
use emscripten_memfswasm_wra.Directory.Insert.{
  created, after_insert, insert_with-eq, look_up-insert,
}
use emscripten_memfswasm_wra.Files.{new_file}
use emscripten_memfswasm_wra.Directory.{look_up, insert_with}
use emscripten_memfswasm_wra.Directory.Tree.{
  HasEntries, IsTree, some-same, directory-same, no_entry_in_nil,
}

module _ (s : Fs) (dir p : FileId) (n : File) (x : Dir) (body : Body) (mode : ℕ) (name : Name)
    (linked : IsLinked s dir p n x) (tree : IsTree s) (free : find_entry name x.entries ≡ none)
    (childless : (y : Dir) → body ≡ directory y → y.entries ≡ []) where
  abbrev t : Fs
  t = after_insert s dir n x body mode name

  pub old_dir : dir ≢ s.next_file
  old_dir e = let none_there = tree.unused dir (omega arith) in let some_there = linked.here in cc

  abbrev pub x1 : Dir
  x1 = record x { entries = insert_child name s.next_file x.entries }

  abbrev n1 : File
  n1 = record n { body = directory x1; mtime = s.host.date_now (s.calls + 1) }

  not_new : (j : FileId) (m : File) → s.files j ≡ some m → (j == s.next_file) ≡ false
  not_new j m h = ground (arith, tree.unused j, h)

  -- A directory after the insertion is the one that was changed, the new one, or an old one.
  pub inserted_dirs :
      (d : FileId) (y : Dir)
      → HasEntries t d y
      → ((d ≡ dir) × (y ≡ x1)) ⊎ ((body ≡ directory y) ⊎ ((dir ≢ d) × HasEntries s d y))
  inserted_dirs d y (m, here, is_dir) = elim (Bool-cases (d == dir)) [
    | inl q ↦
        let e : ◌≡◌ {A = Option File} (some n1) (some m) = rw q at here in
        inl (
          (==_iff d dir).0 q,
          sym (directory-same x1 y (ap (λ z. z.body) (some-same n1 m e) ∙ is_dir)),
        )
    | inr q ↦ elim (Bool-cases (d == s.next_file)) [
      | inl r ↦
          let e : ◌≡◌ {A = Option File} (some (created s dir body mode n.backend)) (some m) =
            rw (q, r) at here in
          inr (inl (ap (λ z. z.body) (some-same _ m e) ∙ is_dir))
      | inr r ↦ inr (inr (ne_of_test d dir q, (m, rw (q, r) at here, is_dir)))
    ]
  ]

  inserted_cases :
      (d : FileId) (y : Dir)
      → HasEntries t d y
      → ((d ≡ dir) × (y.entries ≡ insert_child name s.next_file x.entries))
        ⊎ ((y.entries ≡ []) ⊎ ((dir ≢ d) × HasEntries s d y))
  inserted_cases d y h = elim (inserted_dirs d y h) [
    | inl (e, q) ↦ inl (e, ap (λ z. z.entries) q)
    | inr (inl b) ↦ inr (inl (childless y b))
    | inr (inr old) ↦ inr (inr old)
  ]

  kept :
      (j : FileId) (m : File)
      → s.files j ≡ some m
      → (m' : File) × (t.files j ≡ some m') × (m'.parent ≡ m.parent)
  kept j m h = elim (Bool-cases (j == dir)) [
    | inl q ↦
        let e : some n ≡ some m = sym linked.here ∙ ap s.files (sym ((==_iff j dir).0 q)) ∙ h in
        (n1, rw q, ap (λ z. z.parent) (some-same n m e))
    | inr q ↦ let r = not_new j m h in (m, rw (q, r) h, refl)
  ]

  own : HasEntries s dir x
  own = (n, linked.here, linked.body)

  -- The new child is in no directory yet.
  no_entry :
      (d : FileId) (y : Dir) (a : Name)
      → HasEntries s d y
      → find_entry a y.entries ≢ some s.next_file
  no_entry d y a h e =
      let (m, here, above) = tree.children d y s.next_file a h e in
      let none_there = tree.unused s.next_file (omega arith) in cc

  pub inserted_child :
      (a : Name) (c : FileId)
      → find_entry a (insert_child name s.next_file x.entries) ≡ some c
      → ((a ≡ name) × (c ≡ s.next_file)) ⊎ (find_entry a x.entries ≡ some c)
  inserted_child a c h =
      ground (arith, find-insert_child a name s.next_file x.entries free, name_eq_iff name a)

  child_kept :
      (d : FileId) (y : Dir) (c : FileId) (a : Name)
      → HasEntries s d y
      → find_entry a y.entries ≡ some c
      → (m : File) × (t.files c ≡ some m) × (m.parent ≡ some d)
  child_kept d y c a h e =
      let (m, here, above) = tree.children d y c a h e in
      let (m', there, same) = kept c m here in (m', there, same ∙ above)

  pub new_there :
      (dir ≢ s.next_file) → t.files s.next_file ≡ some (created s dir body mode n.backend)
  new_there old = ground arith

  -- Inserting a new file under a name that is free keeps the tree in shape, if the file is no
  -- directory or one without entries.
  pub after_insert-IsTree : IsTree t
  after_insert-IsTree = record {
    unused = λ f h. ground (arith, tree.unused f, tree.unused dir, linked.here);
    names = λ d y h. elim (inserted_cases d y h) [
      | inl (e, q) ↦ rw q (
          NodupNames-insert_child name s.next_file x.entries (find-Fresh name x.entries free)
            (tree.names dir x own))
      | inr (inl q) ↦ rw q tt
      | inr (inr (ne, old)) ↦ tree.names d y old
    ];
    single = λ d y c a b h u v. elim (inserted_cases d y h) [
      | inl (e, q) ↦ elim (inserted_child a c (rw q at u)) [
        | inl (a_new, c_new) ↦ elim (inserted_child b c (rw q at v)) [
          | inl (b_new, same) ↦ a_new ∙ sym b_new
          | inr v' ↦ absurd (no_entry dir x b own (rw c_new at v'))
        ]
        | inr u' ↦ elim (inserted_child b c (rw q at v)) [
          | inl (b_new, c_new) ↦ absurd (no_entry dir x a own (rw c_new at u'))
          | inr v' ↦ tree.single dir x c a b own u' v'
        ]
      ]
      | inr (inl q) ↦ absurd (no_entry_in_nil a c (rw q at u))
      | inr (inr (ne, old)) ↦ tree.single d y c a b old u v
    ];
    children = λ d y c a h u. elim (inserted_cases d y h) [
      | inl (e, q) ↦ elim (inserted_child a c (rw q at u)) [
        | inl (a_new, c_new) ↦
            (created s dir body mode n.backend, rw c_new (new_there old_dir), ap some (sym e))
        | inr u' ↦ let (m, there, above) = child_kept dir x c a own u' in (m, there, rw e above)
      ]
      | inr (inl q) ↦ absurd (no_entry_in_nil a c (rw q at u))
      | inr (inr (ne, old)) ↦ child_kept d y c a old u
    ];
  }

  -- In a tree that is in shape, inserting a new file into a linked directory under a name that is free
  -- succeeds, where no cached entry has that name and the file is no directory with entries. The tree
  -- keeps its shape, and the directory then finds the new file under the name, which changes nothing.
  pub insert_with-IsTree :
      find_cached name x.dcache ≡ none
      → (u : Fs) × (insert_with (λ b. new_file body mode b true) dir name s
          ≡ done (some s.next_file) u)
        × IsTree u
        × (look_up dir name u ≡ done (some s.next_file) u)
  insert_with-IsTree unmounted = (
    t,
    insert_with-eq s dir p n x body mode name linked old_dir,
    after_insert-IsTree,
    look_up-insert s dir p n x body mode name linked old_dir free unmounted,
  )
