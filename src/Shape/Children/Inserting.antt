-- ===== src/Shape/Children/Inserting.antt =====
-- Inserting and mounting a new child, in a state that is in shape.
use emscripten_memfswasm_wra.Base.{
  ◌∙◌, ℕ, ◌≡◌, ◌≢◌, refl, sym, ap, subst, true, none, some, [], Option-cases, inl, inr, arith,
}
use emscripten_memfswasm_wra.Base.Names.{Name}
use emscripten_memfswasm_wra.Memory.Entries.{find_entry, find_cached, mount, Cached}
use emscripten_memfswasm_wra.Store.{
  FileId, DataImpl, Body, data_file, directory, symlink, Dir, File, Fs, done, fault, load, store,
  get_parent, set_parent, get_backend, make_file, date_now,
}
use emscripten_memfswasm_wra.Store.Cases.{Body-cases}
use emscripten_memfswasm_wra.Files.{new_file}
use emscripten_memfswasm_wra.Directory.{
  load_dir, store_dir, try_insert, update_cache, cache_child, mount_child, insert_with, add_entry,
}
use emscripten_memfswasm_wra.Directory.Lookup.{IsLinked}
use emscripten_memfswasm_wra.Directory.Insert.{after_insert, insert_with-eq}
use emscripten_memfswasm_wra.Directory.Tree.{HasEntries, directory-same, no_entry_in_nil}
use emscripten_memfswasm_wra.Directory.Tree.Changes.{with_file}
use emscripten_memfswasm_wra.Directory.Tree.Inserted.{
  after_insert-IsTree, inserted_dirs, inserted_child, old_dir,
}
use emscripten_memfswasm_wra.Shape.{IsShaped, AreMounts, Shaped, Keeps}
use emscripten_memfswasm_wra.Shape.Changes.{
  recached-IsShaped, old_entries, reparented-IsShaped, no_children, AreMounts-insert_cached,
}
use emscripten_memfswasm_wra.Shape.Files.{IsLoose}
use emscripten_memfswasm_wra.Shape.Children.{IsFree}

module _ (s : Fs) (dir p : FileId) (n : File) (x : Dir) (body : Body) (mode : ℕ) (name : Name)
    (linked : IsLinked s dir p n x) (shape : IsShaped s) (free : find_entry name x.entries ≡ none)
    (childless : (y : Dir) → body ≡ directory y → y ≡ no_children) where
  empty : (y : Dir) → body ≡ directory y → y.entries ≡ []
  empty y b = ap (λ z. z.entries) (childless y b)

  inserted : IsShaped (after_insert s dir n x body mode name)
  inserted =
      let own : HasEntries s dir x = (n, linked.here, linked.body) in
      let cases = inserted_dirs s dir p n x body mode name linked shape.tree free empty in
      let old = old_dir s dir p n x body mode name linked shape.tree free empty in
      record {
        tree = after_insert-IsTree s dir p n x body mode name linked shape.tree free empty;
        proper = λ d y a h u. elim (cases d y h) [
          | inl (e, q) ↦
              elim (inserted_child s dir p n x body mode name linked shape.tree free empty a d
                (ap (λ z. find_entry a z.entries) (sym q) ∙ u)) [
                  | inl (same, new) ↦ old (sym e ∙ new)
                  | inr v ↦ shape.proper dir x a own (v ∙ ap some e)
                ]
          | inr (inl b) ↦ no_entry_in_nil a d (sym (ap (find_entry a) (empty y b)) ∙ u)
          | inr (inr (ne, before)) ↦ shape.proper d y a before u
        ];
        mounted = λ d y h. elim (cases d y h) [
          | inl (e, q) ↦ rw q (shape.mounted dir x own)
          | inr (inl b) ↦ rw (childless y b) tt
          | inr (inr (ne, before)) ↦ shape.mounted d y before
        ];
      }

module _ (s : Fs) (dir p : FileId) (n : File) (body : Body) (mode : ℕ) (name : Name)
    (here : s.files dir ≡ some n) (above : n.parent ≡ some p) (old : dir ≢ s.next_file) where
  into_data :
      (i : DataImpl)
      → n.body ≡ data_file i
      → insert_with (λ b. new_file body mode b true) dir name s ≡ fault
  unfolding insert_with get_parent get_backend new_file make_file date_now add_entry load_dir load
  into_data i b = ground arith

  into_link :
      (t : Name)
      → n.body ≡ symlink t
      → insert_with (λ b. new_file body mode b true) dir name s ≡ fault
  unfolding insert_with get_parent get_backend new_file make_file date_now add_entry load_dir load
  into_link t b = ground arith

not_new : (s : Fs) (f : FileId) (n : File) → IsShaped s → s.files f ≡ some n → f ≢ s.next_file
not_new s f n shape here e = let gone = shape.tree.unused f (omega arith) in cc

-- Inserting a new file under a free name.
pub Keeps-insert_with :
    (dir : FileId) (name : Name) (body : Body) (mode : ℕ)
    → ((y : Dir) → body ≡ directory y → y ≡ no_children)
    → Keeps (IsFree dir name) (insert_with (λ b. new_file body mode b true) dir name)
unfolding insert_with get_parent load
Keeps-insert_with dir name body mode childless = record {
  at = λ s h free. elim (Option-cases (s.files dir)) [
    | inl gone ↦ rw (gone, Shaped) tt
    | inr (n, here) ↦ elim (Option-cases n.parent) [
      | inl orphan ↦ rw (here, Shaped) (rw (orphan, Shaped) h)
      | inr (p, above) ↦ elim (Body-cases n.body) [
        | inl (i, b) ↦
            subst Shaped
              (sym (into_data s dir p n body mode name here above (not_new s dir n h here) i b)) tt
        | inr (inr (t, b)) ↦
            subst Shaped
              (sym (into_link s dir p n body mode name here above (not_new s dir n h here) t b)) tt
        | inr (inl (x, b)) ↦
            let l : IsLinked s dir p n x = record { here = here; body = b; parent = above } in
            let no_child = free p n x l in
            let old =
              old_dir s dir p n x body mode name l h.tree no_child
                (λ y e. ap (λ z. z.entries) (childless y e)) in
            subst Shaped (sym (insert_with-eq s dir p n x body mode name l old))
              (inserted s dir p n x body mode name l h no_child childless)
      ]
    ]
  ];
}

-- Mounting a file that is an entry of no directory.
module _ (s : Fs) (dir c : FileId) (name : Name) (n m : File) (x : Dir) (shape : IsShaped s)
    (here : s.files dir ≡ some n) (body : n.body ≡ directory x) (loose : IsLoose c s) where
  abbrev cached : Cached
  cached = record { name = name; kind = mount; file = c }

  abbrev x1 : Dir
  x1 = record x { dcache = try_insert cached x.dcache }

  abbrev n1 : File
  n1 = record n { body = directory x1 }

  cached-AreMounts : AreMounts (try_insert cached x.dcache)
  unfolding try_insert
  cached-AreMounts =
      let all = shape.mounted dir x (n, here, body) in
      elim (Option-cases (find_cached name x.dcache)) [
        | inl e ↦ rw (e, AreMounts) (AreMounts-insert_cached cached x.dcache refl all)
        | inr (k, e) ↦ rw (e, AreMounts) all
      ]

  same_entries :
      (y : Dir)
      → n1.body ≡ directory y
      → (z : Dir) × (n.body ≡ directory z) × (y.entries ≡ z.entries) × AreMounts y.dcache
  same_entries y b = (
    x,
    body,
    ap (λ z. z.entries) (sym (directory-same x1 y b)),
    subst (λ z. AreMounts z.dcache) (directory-same x1 y b) cached-AreMounts,
  )

  cached_state : IsShaped (with_file s dir n1)
  cached_state = recached-IsShaped s dir n n1 shape here refl same_entries

  mounted_state :
      (m' : File)
      → (with_file s dir n1).files c ≡ some m'
      → IsShaped (with_file (with_file s dir n1) c (record m' { parent = some dir }))
  mounted_state m' there =
      reparented-IsShaped (with_file s dir n1) c m' (some dir) cached_state there λ d y a h u.
        let (z, old, same, all) = old_entries s dir n n1 shape here refl same_entries d y h in
        loose d z a old (ap (find_entry a) (sym same) ∙ u)

  mount_state : (p : FileId) → n.parent ≡ some p → Shaped (mount_child dir name c s)
  unfolding mount_child get_parent cache_child load_dir update_cache store_dir load store set_parent
  mount_state p above = elim (Option-cases ((with_file s dir n1).files c)) [
    | inl gone ↦
        let e : mount_child dir name c s ≡ fault = ground (arith, here, body, above, gone) in
        subst Shaped (sym e) tt
    | inr (m', there) ↦
        let e : mount_child dir name c s
            ≡ done true (with_file (with_file s dir n1) c (record m' { parent = some dir })) =
          ground (arith, here, body, above, there) in
        subst Shaped (sym e) (mounted_state m' there)
  ]

pub Keeps-mount_child : (dir c : FileId) (name : Name) → Keeps (IsLoose c) (mount_child dir name c)
unfolding mount_child get_parent cache_child load_dir load
Keeps-mount_child dir c name = record {
  at = λ s h loose. elim (Option-cases (s.files dir)) [
    | inl gone ↦ rw (gone, Shaped) tt
    | inr (n, here) ↦ elim (Option-cases n.parent) [
      | inl orphan ↦ rw (here, Shaped) (rw (orphan, Shaped) h)
      | inr (p, above) ↦ elim (Body-cases n.body) [
        | inl (i, b) ↦
            rw (here, Shaped) (rw (above, Shaped) (rw (here, Shaped) (rw (b, Shaped) tt)))
        | inr (inr (t, b)) ↦
            rw (here, Shaped) (rw (above, Shaped) (rw (here, Shaped) (rw (b, Shaped) tt)))
        | inr (inl (x, b)) ↦ mount_state s dir c name n n x h here b loose p above
      ]
    ]
  ];
}
