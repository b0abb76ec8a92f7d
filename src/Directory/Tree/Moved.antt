-- ===== src/Directory/Tree/Moved.antt =====
-- `insertMove` of `Directory::Handle` over `MemoryDirectory`, for a file that is an entry of its
-- old directory and a mount point of none.
use emscripten_memfswasm_wra.Base.{
  ◌∙◌, ◌≡◌, ◌≢◌, inl, inr, refl, sym, ap, none, some, arith, Bool-cases, ◌==◌, ==_iff, ne_of_test,
}
use emscripten_memfswasm_wra.Base.Names.{Name, name_eq_refl}
use emscripten_memfswasm_wra.Memory.Entries.{
  find_entry, find_cached, find_cached_file, insert_child, erase_entry, erase_file,
}
use emscripten_memfswasm_wra.Memory.Entries.Laws.{
  NodupNames, find-erase_entry, find-erase_entry_self, find-insert_child, erase_file-eq,
}
use emscripten_memfswasm_wra.Store.{
  FileId, directory, Dir, File, Fs, done, ◌>>◌, load, store, get_parent, set_parent, update_mtime,
}
use emscripten_memfswasm_wra.Directory.{
  load_dir, store_dir, look_up, add_entry, remove_entry, move_entry, insert_move,
}
use emscripten_memfswasm_wra.Directory.Lookup.{IsLinked, look_up-child}
use emscripten_memfswasm_wra.Directory.Tree.{HasEntries, IsTree, some-same, directory-same}
use emscripten_memfswasm_wra.Directory.Tree.Changes.{with_file}
use emscripten_memfswasm_wra.Directory.Tree.Unlinked.{Unlinked, shrunk, shrunk-fewer, removed_cases}
use emscripten_memfswasm_wra.Directory.Tree.Unlinked
use emscripten_memfswasm_wra.Directory.Tree.Relinked.{relinked-IsTree}
use emscripten_memfswasm_wra.Directory.Tree.Touched.{update_mtime-Touched}

-- What is known of the state `t` after the file became the entry `name` of the directory `dir`, whose
-- entries were those of `x` in `s`. A file that is neither the moved nor the overwritten one keeps
-- its parent.
pub record Moved (s t : Fs) (dir file : FileId) (name : Name) (x : Dir) : Type 0 where
  pub tree : IsTree t
  pub root : t.root ≡ s.root
  pub found : look_up dir name t ≡ done (some file) t
  pub moved : (k : File) × (t.files file ≡ some k) × (k.parent ≡ some dir)
  pub kept :
      (j : FileId) (k : File)
      → j ≢ file
      → find_entry name x.entries ≢ some j
      → s.files j ≡ some k
      → (k' : File) × (t.files j ≡ some k') × (k'.parent ≡ k.parent)

module _ (s : Fs) (dir p old file : FileId) (n no m : File) (x xo : Dir) (name old_name : Name)
    (tree : IsTree s) (linked : IsLinked s dir p n x) (from : s.files old ≡ some no)
    (from_dir : no.body ≡ directory xo) (there : s.files file ≡ some m)
    (entry : find_entry old_name xo.entries ≡ some file)
    (uncached : find_cached_file file xo.dcache ≡ none)
    (unmounted : find_cached name x.dcache ≡ none) (not_into : file ≢ dir) (not_self : file ≢ old)
    (not_dir : find_entry name x.entries ≢ some dir)
    (not_old : find_entry name x.entries ≢ some old) where
  proper : find_entry old_name xo.entries ≢ some old
  proper e = not_self (some-same file old (sym entry ∙ e))

  abbrev xo1 : Dir
  xo1 = record xo { entries = erase_entry old_name xo.entries }

  abbrev no1 : File
  no1 = record no { body = directory xo1 }

  abbrev s1 : Fs
  s1 = with_file s old no1

  erased : erase_file file xo.entries ≡ erase_entry old_name xo.entries
  erased =
      erase_file-eq file old_name xo.entries (tree.names old xo (no, from, from_dir))
        (λ a b u v. tree.single old xo file a b (no, from, from_dir) u v) entry

  parent_of : m.parent ≡ some old
  parent_of =
      let (k, child, above) = tree.children old xo file old_name (no, from, from_dir) entry in
      ap (λ z. z.parent) (some-same m k (sym there ∙ child)) ∙ above

  s1-IsTree : IsTree s1
  s1-IsTree = shrunk s old no xo old_name tree from from_dir proper file m entry there

  s1-loose :
      (d : FileId) (y : Dir) (a : Name) → HasEntries s1 d y → find_entry a y.entries ≢ some file
  s1-loose = Unlinked.loose s old no xo old_name tree from from_dir proper file m entry there

  -- The new directory after the old one lost its entry. It may be the same directory.
  record Target : Type 0 where
    target : File
    inside : Dir
    here : s1.files dir ≡ some target
    body : target.body ≡ directory inside
    parent : target.parent ≡ some p
    cache : inside.dcache ≡ x.dcache
    still :
        (j : FileId) → find_entry name x.entries ≢ some j → find_entry name inside.entries ≢ some j

  nodup_old : NodupNames xo.entries
  nodup_old = tree.names old xo (no, from, from_dir)

  target1 : Target
  target1 = elim (Bool-cases (dir == old)) [
    | inl q ↦
        let same : n ≡ no =
          some-same n no (sym linked.here ∙ ap s.files ((==_iff dir old).0 q) ∙ from) in
        let same_x : x ≡ xo =
          directory-same x xo (sym linked.body ∙ ap (λ z. z.body) same ∙ from_dir) in
        record {
          target = no1;
          inside = xo1;
          here = rw q refl;
          body = refl;
          parent = sym (ap (λ z. z.parent) same) ∙ linked.parent;
          cache = sym (ap (λ z. z.dcache) same_x);
          still = λ j ne e. ne (
              ap (λ z. find_entry name z.entries) same_x
              ∙ find-erase_entry name old_name j xo.entries nodup_old e);
        }
    | inr q ↦ record {
      target = n;
      inside = x;
      here = rw q linked.here;
      body = linked.body;
      parent = linked.parent;
      cache = refl;
      still = λ j ne. ne;
    }
  ]

  module _ (g : Target) (s2 : Fs) (u : Unlinked s1 s2 dir g.target g.inside name) where
    abbrev y2 : Dir
    y2 = record g.inside { entries = erase_entry name g.inside.entries }

    free : find_entry name y2.entries ≡ none
    free =
        find-erase_entry_self name g.inside.entries
          (s1-IsTree.names dir g.inside (g.target, g.here, g.body))

    file2 : s2.files file ≡ some m
    file2 =
        u.others file not_into (s1-loose dir g.inside name (g.target, g.here, g.body))
        ∙ ground (arith, there, not_self)

    loose2 :
        (d : FileId) (y : Dir) (a : Name) → HasEntries s2 d y → find_entry a y.entries ≢ some file
    loose2 d y a h e = let (y', h', e') = u.fewer d y a file h e in s1-loose d y' a h' e'

    abbrev y3 : Dir
    y3 = record y2 { entries = insert_child name file y2.entries }

    abbrev r1 : File
    r1 = record u.record_of { body = directory y3 }

    abbrev m1 : File
    m1 = record m { parent = some dir }

    abbrev s4 : Fs
    s4 = with_file (with_file s2 dir r1) file m1

    s4-IsTree : IsTree s4
    s4-IsTree =
        relinked-IsTree s2 dir file u.record_of m y2 name u.tree u.here u.body file2 free not_into
          loose2

    -- The old directory is still a directory.
    old4 : (k : File) × (y : Dir) × (s4.files old ≡ some k) × (k.body ≡ directory y)
    old4 = elim (Bool-cases (old == dir)) [
      | inl q ↦ (r1, y3, ground (arith, q, not_self), refl)
      | inr q ↦ (no1, xo1, ground (arith, q, not_self, u.others old, g.still old not_old), refl)
    ]

    written :
        remove_entry dir name s1 ≡ done tt s2
        → insert_move dir name file s ≡ (do update_mtime old; update_mtime dir) s4
    unfolding insert_move move_entry add_entry load_dir store_dir load store get_parent set_parent
    written e2 = ground (
      arith, linked.here, linked.body, linked.parent, from, from_dir, there, parent_of, erased,
      uncached, e2, u.here, u.body, file2, not_into,
    )

    -- The steps that do not touch the times.
    kept4 :
        (j : FileId) (k : File)
        → j ≢ file
        → find_entry name x.entries ≢ some j
        → s.files j ≡ some k
        → (k' : File) × (s4.files j ≡ some k') × (k'.parent ≡ k.parent)
    kept4 j k ne other h = elim (Bool-cases (j == dir)) [
      | inl q ↦
          let same : n ≡ k =
            some-same n k (sym linked.here ∙ ap s.files (sym ((==_iff j dir).0 q)) ∙ h) in
          (
            r1,
            ground (arith, q, ne),
            u.parent ∙ g.parent ∙ sym linked.parent ∙ ap (λ z. z.parent) same,
          )
      | inr q ↦
          let same2 : s2.files j ≡ s1.files j =
            u.others j (λ e. ne_of_test j dir q (sym e)) (g.still j other) in
          elim (Bool-cases (j == old)) [
            | inl r ↦
                let same : no ≡ k =
                  some-same no k (sym from ∙ ap s.files (sym ((==_iff j old).0 r)) ∙ h) in
                (no1, ground (arith, q, r, ne, same2), ap (λ z. z.parent) same)
            | inr r ↦ (k, ground (arith, q, r, ne, same2, h), refl)
          ]
    ]

    finished :
        remove_entry dir name s1 ≡ done tt s2
        → (t : Fs) × (insert_move dir name file s ≡ done tt t) × Moved s t dir file name x
    finished e2 =
        let (ko, yo, at_old, old_dir) = old4 in
        let (s5, e5, t5) = update_mtime-Touched s4 old ko yo s4-IsTree at_old old_dir in
        let (k5, at5, body5, parent5) = t5.kept dir r1 (ground (arith, not_into)) in
        let (f5, file5, file_body5, above5) = t5.kept file m1 (ground (arith)) in
        let (s6, e6, t6) = update_mtime-Touched s5 dir k5 y3 t5.tree at5 body5 in
        let (k6, at6, body6, parent6) = t6.kept dir k5 at5 in
        let (f6, file6, file_body6, above6) = t6.kept file f5 file5 in
        let l : IsLinked s6 dir p k6 y3 = record {
          here = at6;
          body = body6 ∙ body5;
          parent = parent6 ∙ parent5 ∙ u.parent ∙ g.parent;
        } in
        let look =
          look_up-child s6 dir p k6 y3 name l (ap (λ z. find_cached name z) g.cache ∙ unmounted)
            file f6 (find-insert_child name name file y2.entries free ∙ rw (name_eq_refl name))
            file6 (above6 ∙ above5) in
        (
          s6,
          written e2 ∙ rw (e5, e6) refl,
          record {
            tree = t6.tree;
            root = t6.root ∙ t5.root ∙ u.root;
            found = look;
            moved = (f6, file6, above6 ∙ above5);
            kept = λ j k ne other h.
                let (k4, h4, same4) = kept4 j k ne other h in
                let (k5', h5', b5', same5) = t5.kept j k4 h4 in
                let (k6', h6', b6', same6) = t6.kept j k5' h5' in (k6', h6', same6 ∙ same5 ∙ same4);
          },
        )

  -- The move of a file of a directory to another name, in the same directory or in another one, is
  -- done. No mount point is in the way, the file is neither of the directories, and what had the new
  -- name before is neither of them.
  pub insert_move-Moved :
      (t : Fs) × (insert_move dir name file s ≡ done tt t) × Moved s t dir file name x
  insert_move-Moved =
      let g = target1 in
      let (s2, e2, u) =
        removed_cases s1 dir g.target g.inside name s1-IsTree g.here g.body (g.still dir not_dir) in
      finished g s2 u e2
