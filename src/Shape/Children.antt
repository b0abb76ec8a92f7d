-- ===== src/Shape/Children.antt =====
-- Inserting, mounting and removing a child, in a state that is in shape.
pub mod Inserting
use emscripten_memfswasm_wra.Base.{
  ◌∙◌, ℕ, ◌+◌, ◌≡◌, ◌≢◌, ◌⊎◌, refl, sym, ap, subst, true, false, Option, none, some, [], ◌∷◌,
  Option-cases, inl, inr, arith, Bool, Bool-cases, if◌then◌else◌, ◌==◌, ==_iff,
}
use emscripten_memfswasm_wra.Base.Names.{Name, name_eq, codes}
use emscripten_memfswasm_wra.Memory.Entries.{
  find_entry, find_cached, erase_entry, erase_cached, insert_cached, mount, normal, Cached, DCache,
  DCacheKind,
}
use emscripten_memfswasm_wra.Memory.Entries.Laws.{find-erase_entry}
use emscripten_memfswasm_wra.Store.{
  FileId, Body, data_file, directory, symlink, Dir, File, Fs, M, Out, done, fail, fault,
  out_of_fuel, and_then, ◌>>=◌, ◌>>◌, pure, load, store, get_parent, set_parent,
}
use emscripten_memfswasm_wra.Store.Cases.{Body-cases}
use emscripten_memfswasm_wra.Directory.{
  load_dir, store_dir, look_up, get_child, try_insert, update_cache, cache_child, mount_child,
  remove_entry, remove_child, is_mount,
}
use emscripten_memfswasm_wra.Directory.Lookup.{IsLinked, look_up-entry, look_up-cached}
use emscripten_memfswasm_wra.Directory.Remove.{after_remove, remove_child-eq}
use emscripten_memfswasm_wra.Directory.Tree.{HasEntries, IsTree, some-same, directory-same}
use emscripten_memfswasm_wra.Directory.Tree.Changes.{with_file}
use emscripten_memfswasm_wra.Directory.Tree.Removed.{after_remove-IsTree, removed_dirs}
use emscripten_memfswasm_wra.Shape.{IsShaped, AreMounts, Shaped, Same, Keeps, Reads, Always}
use emscripten_memfswasm_wra.Shape.Rules.{Keeps-Reads, Keeps-bind, Keeps-read}
use emscripten_memfswasm_wra.Shape.Reading.{Reads-get_child}
use emscripten_memfswasm_wra.Shape.Changes.{
  recached-IsShaped, touched-IsShaped, reparented-IsShaped, find_cached-mount,
  AreMounts-erase_cached, AreMounts-insert_cached,
}
use emscripten_memfswasm_wra.Shape.Files.{IsLoose, Keeps-update_mtime}

-- The directory has a parent.
abbrev pub HasParent : FileId → Fs → Type 0
HasParent dir s = (n : File) → s.files dir ≡ some n → (p : FileId) × (n.parent ≡ some p)

-- The directory, if it has a parent, has no entry of the name.
abbrev pub IsFree : FileId → Name → Fs → Type 0
IsFree dir name s =
    (p : FileId) (n : File) (x : Dir) → IsLinked s dir p n x → find_entry name x.entries ≡ none

none≢some_child : {c : FileId} → ◌≢◌ {A = Option FileId} none (some c)
none≢some_child e = cc

get_child-HasParent :
    (dir : FileId) (name : Name) (c : FileId) (s t : Fs)
    → get_child dir name s ≡ done (some c) t
    → HasParent dir s
unfolding get_child get_parent load
get_child-HasParent dir name c s t h n here = elim (Option-cases n.parent) [
  | inl e ↦ ground (arith, h, here, e)
  | inr (p, e) ↦ (p, e)
]

get_child-IsFree :
    (dir : FileId) (name : Name) (s t : Fs)
    → IsShaped s
    → get_child dir name s ≡ done none t
    → IsFree dir name s
unfolding get_child get_parent load
get_child-IsFree dir name s t shape h p n x l = elim (Option-cases (find_entry name x.entries)) [
  | inl e ↦ e
  | inr (c, e) ↦
      let (m, there, above) = shape.tree.children dir x c name (n, l.here, l.body) e in
      let (d, look) = found c m e there above in ground (arith, h, l.here, l.parent, look)
]
  where
    found :
        (c : FileId) (m : File)
        → find_entry name x.entries ≡ some c
        → s.files c ≡ some m
        → m.parent ≡ some dir
        → (d : FileId) × (look_up dir name s ≡ done (some d) s)
    found c m e there above = elim (Option-cases (find_cached name x.dcache)) [
      | inl u ↦ (c, look_up-entry s dir n x name c m l.here l.body u e there above)
      | inr (k, u) ↦ (k.file, look_up-cached s dir n x name k l.here l.body u)
    ]

-- What a search for a child tells.
pub Keeps-get_child :
    {A : Type 0} (dir : FileId) (name : Name) (k : Option FileId → M A)
    → Keeps (IsFree dir name) (k none)
    → ((c : FileId) → Keeps (HasParent dir) (k (some c)))
    → Keeps Always (get_child dir name >>= k)
Keeps-get_child dir name k kn ks = record {
  at = λ s h p. go s h (get_child dir name s) refl ((Reads-get_child dir name).at s h);
}
  where
    go :
        (s : Fs)
        → IsShaped s
        → (o : Out (Option FileId)) → get_child dir name s ≡ o
        → Same s o
        → Shaped (and_then o k)
    go s h (done none t) e q =
        subst (λ z. Shaped (k none z)) (sym q) (kn.at s h (get_child-IsFree dir name s t h e))
    go s h (done (some c) t) e q =
        subst (λ z. Shaped (k (some c) z)) (sym q)
          ((ks c).at s h (get_child-HasParent dir name c s t e))
    go s h (fail j t) e q = subst IsShaped (sym q) h
    go s h fault e q = tt
    go s h out_of_fuel e q = tt

module _ (s : Fs) (dir : FileId) (n : File) (x : Dir) (name : Name) (shape : IsShaped s)
    (here : s.files dir ≡ some n) (body : n.body ≡ directory x) where
  -- The entry is taken out of the vector.
  removed :
      (p c : FileId) (m : File)
      → n.parent ≡ some p
      → find_entry name x.entries ≡ some c
      → s.files c ≡ some m
      → IsShaped (after_remove s dir n x c m name)
  removed p c m parent found there =
      let l : IsLinked s dir p n x = record { here = here; body = body; parent = parent } in
      let own : HasEntries s dir x = (n, here, body) in
      let cases = removed_dirs s dir p n x c m name l shape.tree found there in
      record {
        tree = after_remove-IsTree s dir p n x c m name l shape.tree found there;
        proper = λ d y a h u. elim (cases d y h) [
          | inl (e, q) ↦ shape.proper dir x a own (
              find-erase_entry a name dir x.entries (shape.tree.names dir x own)
                (rw (← e) (ap (λ z. find_entry a z.entries) (sym q) ∙ u)))
          | inr (ne, old) ↦ shape.proper d y a old u
        ];
        mounted = λ d y h. elim (cases d y h) [
          | inl (e, q) ↦ rw q (shape.mounted dir x own)
          | inr (ne, old) ↦ shape.mounted d y old
        ];
      }

  nothing_removed :
      find_cached name x.dcache ≡ none
      → find_entry name x.entries ≡ none
      → Shaped (remove_child dir name s)
  unfolding remove_child remove_entry load_dir load
  nothing_removed uncached free =
      subst Shaped (sym (ground (arith, here, body, uncached, free)))
        ((Keeps-update_mtime dir).at s shape tt)

  unmounted :
      (c : Cached)
      → find_cached name x.dcache ≡ some c
      → remove_child dir name s
        ≡ done tt (
            with_file s dir
              (record n { body = directory (record x { dcache = erase_cached name x.dcache }) }))
  unfolding remove_child remove_entry load_dir store_dir load store
  unmounted c cached =
      let k = find_cached-mount name x.dcache c (shape.mounted dir x (n, here, body)) cached in
      ground (arith, here, body, cached, k)

  erased_mount : IsShaped (
      with_file s dir
        (record n { body = directory (record x { dcache = erase_cached name x.dcache }) }))
  erased_mount = recached-IsShaped s dir n _ shape here refl λ y b. (
    x,
    body,
    ap (λ z. z.entries) (sym (directory-same _ y b)),
    subst (λ z. AreMounts z.dcache) (directory-same _ y b)
        (AreMounts-erase_cached name x.dcache (shape.mounted dir x (n, here, body))),
  )

pub Keeps-remove_child :
    (dir : FileId) (name : Name) → Keeps (HasParent dir) (remove_child dir name)
unfolding remove_child load_dir load
Keeps-remove_child dir name = record {
  at = λ s h up. elim (Option-cases (s.files dir)) [
    | inl gone ↦ rw (gone, Shaped) tt
    | inr (n, here) ↦ elim (Body-cases n.body) [
      | inl (i, b) ↦ rw (here, Shaped) (rw (b, Shaped) tt)
      | inr (inr (t, b)) ↦ rw (here, Shaped) (rw (b, Shaped) tt)
      | inr (inl (x, b)) ↦ elim (Option-cases (find_cached name x.dcache)) [
        | inr (c, cached) ↦
            subst Shaped (sym (unmounted s dir n x name h here b c cached))
              (erased_mount s dir n x name h here b)
        | inl uncached ↦ elim (Option-cases (find_entry name x.entries)) [
          | inl free ↦ nothing_removed s dir n x name h here b uncached free
          | inr (c, found) ↦
              let (p, above) = up n here in
              let own : HasEntries s dir x = (n, here, b) in
              let (m, there, same) = h.tree.children dir x c name own found in
              let l : IsLinked s dir p n x = record { here = here; body = b; parent = above } in
              let other : c ≢ dir = λ e. h.proper dir x name own (found ∙ ap some e) in
              subst Shaped (sym (remove_child-eq s dir p n x c m name l uncached found there other))
                (removed s dir n x name h here b p c m above found there)
        ]
      ]
    ]
  ];
}
