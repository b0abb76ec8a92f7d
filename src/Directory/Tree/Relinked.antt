-- ===== src/Directory/Tree/Relinked.antt =====
-- `MemoryDirectory::insertChild` and `setParent` for a file that is an entry of no directory, as
-- `insertMove` does it.
use emscripten_memfswasm_wra.Base.{◌∙◌, ◌≡◌, ◌≢◌, ◌⊎◌, inl, inr, refl, sym, ap, none, some, arith}
use emscripten_memfswasm_wra.Base.Names.{Name, name_eq_iff}
use emscripten_memfswasm_wra.Memory.Entries.{find_entry, insert_child}
use emscripten_memfswasm_wra.Memory.Entries.Laws.{
  find-Fresh, NodupNames-insert_child, find-insert_child,
}
use emscripten_memfswasm_wra.Store.{FileId, directory, Dir, File, Fs}
use emscripten_memfswasm_wra.Directory.Tree.{HasEntries, IsTree}
use emscripten_memfswasm_wra.Directory.Tree.Changes.{
  with_file, update_comm, set_dir-IsTree, set_parent-IsTree,
}

module _ (s : Fs) (dir file : FileId) (n m : File) (x : Dir) (name : Name) (tree : IsTree s)
    (here : s.files dir ≡ some n) (body : n.body ≡ directory x) (there : s.files file ≡ some m)
    (free : find_entry name x.entries ≡ none) (ne : file ≢ dir)
    (loose : (d : FileId) (y : Dir) (a : Name)
      → HasEntries s d y
      → find_entry a y.entries ≢ some file) where
  abbrev x1 : Dir
  x1 = record x { entries = insert_child name file x.entries }

  abbrev n1 : File
  n1 = record n { body = directory x1 }

  abbrev m1 : File
  m1 = record m { parent = some dir }

  abbrev pub relinked : Fs
  relinked = with_file (with_file s dir n1) file m1

  adopted : IsTree (with_file s file m1)
  adopted = set_parent-IsTree s file m (some dir) tree there loose

  inserted_child :
      (a : Name) (c : FileId)
      → find_entry a (insert_child name file x.entries) ≡ some c
      → ((a ≡ name) × (c ≡ file)) ⊎ (find_entry a x.entries ≡ some c)
  inserted_child a c h =
      ground (arith, find-insert_child a name file x.entries free, name_eq_iff name a)

  own : HasEntries s dir x
  own = (n, here, body)

  once :
      (c : FileId) (a b : Name)
      → find_entry a x1.entries ≡ some c
      → find_entry b x1.entries ≡ some c
      → a ≡ b
  once c a b u v = elim (inserted_child a c u) [
    | inl (e, f) ↦ elim (inserted_child b c v) [
      | inl (e', f') ↦ e ∙ sym e'
      | inr old ↦ absurd (loose dir x b own (old ∙ ap some f))
    ]
    | inr old ↦ elim (inserted_child b c v) [
      | inl (e', f') ↦ absurd (loose dir x a own (old ∙ ap some f'))
      | inr old' ↦ tree.single dir x c a b own old old'
    ]
  ]

  theirs :
      (c : FileId) (a : Name)
      → find_entry a x1.entries ≡ some c
      → (k : File) × ((with_file s file m1).files c ≡ some k) × (k.parent ≡ some dir)
  theirs c a u = elim (inserted_child a c u) [
    | inl (e, f) ↦ (m1, ground (arith, f), refl)
    | inr old ↦
        let (k, child, above) = tree.children dir x c a own old in
        (k, ground (arith, child, loose dir x a own, old), above)
  ]

  swapped : relinked ≡ with_file (with_file s file m1) dir n1
  swapped =
      ap (λ f. record s { files = f })
        (update_comm s.files dir file (some n1) (some m1) (λ e. ne (sym e)))

  pub relinked-IsTree : IsTree relinked
  relinked-IsTree = rw swapped (
      set_dir-IsTree (with_file s file m1) dir n n1 x x1 adopted (ground (arith, here, ne)) refl
        refl
        (NodupNames-insert_child name file x.entries (find-Fresh name x.entries free)
          (tree.names dir x own))
        once theirs)
