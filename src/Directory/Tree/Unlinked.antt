-- ===== src/Directory/Tree/Unlinked.antt =====
-- `MemoryDirectory::removeChild` and the shape of the tree.
use emscripten_memfswasm_wra.Base.{
  ◌∙◌, subst, ◌≡◌, ◌≢◌, inl, inr, refl, sym, ap, Option, none, some, arith, Option-cases,
}
use emscripten_memfswasm_wra.Base.Names.{Name}
use emscripten_memfswasm_wra.Memory.Entries.{find_entry, erase_entry}
use emscripten_memfswasm_wra.Memory.Entries.Laws.{
  NodupNames-erase_entry, find-erase_entry, find-erase_entry_self, erase_entry-missing,
}
use emscripten_memfswasm_wra.Store.{FileId, directory, Dir, File, Fs, done, load, store, set_parent}
use emscripten_memfswasm_wra.Directory.{load_dir, store_dir, remove_entry}
use emscripten_memfswasm_wra.Directory.Tree.{HasEntries, IsTree, some-same, directory-same}
use emscripten_memfswasm_wra.Directory.Tree.Changes.{
  with_file, update_comm, shrink_dir-IsTree, shrink_dir-fewer, old_entries, set_parent-IsTree,
}

-- What is known of the state `t` after `name` was taken out of the directory `dir` of `s`.
pub record Unlinked (s t : Fs) (dir : FileId) (n : File) (x : Dir) (name : Name) : Type 0 where
  pub tree : IsTree t
  pub record_of : File
  pub here : t.files dir ≡ some record_of
  pub body : record_of.body ≡ directory (record x { entries = erase_entry name x.entries })
  pub parent : record_of.parent ≡ n.parent
  pub root : t.root ≡ s.root
  pub others : (j : FileId) → j ≢ dir → find_entry name x.entries ≢ some j → t.files j ≡ s.files j
  pub fewer :
      (d : FileId) (y : Dir) (a : Name) (c : FileId)
      → HasEntries t d y
      → find_entry a y.entries ≡ some c
      → (y' : Dir) × HasEntries s d y' × (find_entry a y'.entries ≡ some c)

module _ (s : Fs) (dir : FileId) (n : File) (x : Dir) (name : Name) (tree : IsTree s)
    (here : s.files dir ≡ some n) (body : n.body ≡ directory x)
    (proper : find_entry name x.entries ≢ some dir) where
  own : HasEntries s dir x
  own = (n, here, body)

  abbrev x1 : Dir
  x1 = record x { entries = erase_entry name x.entries }

  abbrev n1 : File
  n1 = record n { body = directory x1 }

  missing : find_entry name x.entries ≡ none → Unlinked s s dir n x name
  missing free = record {
    tree = tree;
    record_of = n;
    here = here;
    body =
        body
        ∙ ap (λ es. directory (record x { entries = es }))
            (sym (erase_entry-missing name x.entries free));
    parent = refl;
    root = refl;
    others = λ j ne h. refl;
    fewer = λ d y a c h u. (y, h, u);
  }

  module _ (c : FileId) (m : File) (found : find_entry name x.entries ≡ some c)
      (child : s.files c ≡ some m) where
    abbrev m1 : File
    m1 = record m { parent = none }

    abbrev t : Fs
    t = with_file (with_file s c m1) dir n1

    abbrev swapped : Fs
    swapped = with_file (with_file s dir n1) c m1

    proper_child : c ≢ dir
    proper_child e = proper (found ∙ ap some e)

    t-swapped : t ≡ swapped
    t-swapped =
        ap (λ f. record s { files = f })
          (update_comm s.files c dir (some m1) (some n1) proper_child)

    pub shrunk : IsTree (with_file s dir n1)
    shrunk =
        shrink_dir-IsTree s dir n n1 x x1 tree here body refl refl
          (NodupNames-erase_entry name x.entries (tree.names dir x own))
          (λ a k. find-erase_entry a name k x.entries (tree.names dir x own))

    pub shrunk-fewer :
        (d : FileId) (y : Dir) (a : Name) (k : FileId)
        → HasEntries (with_file s dir n1) d y
        → find_entry a y.entries ≡ some k
        → (y' : Dir) × HasEntries s d y' × (find_entry a y'.entries ≡ some k)
    shrunk-fewer =
        shrink_dir-fewer s dir n n1 x x1 tree here body refl refl
          (NodupNames-erase_entry name x.entries (tree.names dir x own))
          (λ a k. find-erase_entry a name k x.entries (tree.names dir x own))

    -- Entries of the directory whose child is `c`.
    pub gone : (a : Name) → find_entry a x1.entries ≢ some c
    gone a u =
        let nodup = tree.names dir x own in
        let same : a ≡ name =
          tree.single dir x c a name own (find-erase_entry a name c x.entries nodup u) found in
        let e : find_entry name x1.entries ≡ some c =
          sym (ap (λ z. find_entry z x1.entries) same) ∙ u in
        let none_there = find-erase_entry_self name x.entries nodup in cc

    pub loose :
        (d : FileId) (y : Dir) (a : Name)
        → HasEntries (with_file s dir n1) d y
        → find_entry a y.entries ≢ some c
    loose d y a h u =
        let (y', old, u') = shrunk-fewer d y a c h u in
        let (m', child', above) = tree.children d y' c a old u' in
        let (m'', child'', above'') = tree.children dir x c name own found in
        let same : m' ≡ m'' = some-same m' m'' (sym child' ∙ child'') in
        let e : d ≡ dir = some-same d dir (sym above ∙ ap (λ z. z.parent) same ∙ above'') in
        let (k, there, is_dir) = h in
        let e' : ◌≡◌ {A = Option File} (some n1) (some k) = ground (arith, there, e) in
        let same_dir : x1 ≡ y =
          directory-same x1 y (ap (λ z. z.body) (some-same n1 k e') ∙ is_dir) in
        gone a (subst (λ (z : Dir). find_entry a z.entries ≡ some c) (sym same_dir) u)

    t-IsTree : IsTree t
    t-IsTree = rw t-swapped (
        set_parent-IsTree (with_file s dir n1) c m none shrunk (ground (arith, child, proper_child))
          loose)

    t-fewer :
        (d : FileId) (y : Dir) (a : Name) (k : FileId)
        → HasEntries t d y
        → find_entry a y.entries ≡ some k
        → (y' : Dir) × HasEntries s d y' × (find_entry a y'.entries ≡ some k)
    t-fewer d y a k h u =
        let h' : HasEntries swapped d y = subst (λ z. HasEntries z d y) t-swapped h in
        shrunk-fewer d y a k
          (old_entries (with_file s dir n1) c m none shrunk (ground (arith, child, proper_child))
            loose d y h')
          u

    removed : (remove_entry dir name s ≡ done tt t) × Unlinked s t dir n x name
    unfolding remove_entry load_dir store_dir set_parent load store
    removed = (
      ground (arith, here, body, found, child, proper_child),
      record {
        tree = t-IsTree;
        record_of = n1;
        here = ground (arith);
        body = refl;
        parent = refl;
        root = refl;
        others = λ j ne h. ground (arith, ne, h, found);
        fewer = t-fewer;
      },
    )

  pub removed_cases : (t : Fs) × (remove_entry dir name s ≡ done tt t) × Unlinked s t dir n x name
  unfolding remove_entry load_dir load
  removed_cases = elim (Option-cases (find_entry name x.entries)) [
    | inl free ↦ (s, ground (arith, here, body, free), missing free)
    | inr (c, found) ↦
        let (m, child, above) = tree.children dir x c name own found in
        let (e, r) = removed c m found child in (t c m found child, e, r)
  ]
