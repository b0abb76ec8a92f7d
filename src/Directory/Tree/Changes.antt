-- ===== src/Directory/Tree/Changes.antt =====
-- Single changes of the files, and the shape of the tree.
use emscripten_memfswasm_wra.Base.{
  ◌∙◌, ℕ, ◌≡◌, ◌≢◌, ◌⊎◌, inl, inr, refl, sym, ap, fun_ext, Option, some, ◌==◌, arith, Bool-cases,
  ==_iff, ne_of_test,
}
use emscripten_memfswasm_wra.Base.Names.{Name}
use emscripten_memfswasm_wra.Memory.Entries.{find_entry}
use emscripten_memfswasm_wra.Memory.Entries.Laws.{NodupNames}
use emscripten_memfswasm_wra.Store.{FileId, directory, Dir, File, Fs, update}
use emscripten_memfswasm_wra.Directory.Tree.{HasEntries, IsTree, some-same, directory-same}

-- The state with one file replaced.
abbrev pub with_file : Fs → FileId → File → Fs
with_file s f m = record s { files = update s.files f (some m) }

pub update_comm {ℓ} :
    {A : Type ℓ} (f : ℕ → A) (j k : ℕ) (a b : A)
    → j ≢ k
    → update (update f j a) k b ≡ update (update f k b) j a
update_comm f j k a b ne = fun_ext λ i. ground (arith, ne)

-- A new record for a directory that keeps its parent, with other entries. Each of them is a child of
-- the directory already, and none stands twice.
module _ (s : Fs) (dir : FileId) (n n' : File) (x x' : Dir) (tree : IsTree s)
    (here : s.files dir ≡ some n) (body' : n'.body ≡ directory x') (parent' : n'.parent ≡ n.parent)
    (nodup : NodupNames x'.entries)
    (once : (c : FileId) (a b : Name)
      → find_entry a x'.entries ≡ some c
      → find_entry b x'.entries ≡ some c
      → a ≡ b)
    (theirs : (c : FileId) (a : Name)
      → find_entry a x'.entries ≡ some c
      → (m : File) × (s.files c ≡ some m) × (m.parent ≡ some dir)) where
  changed_cases :
      (d : FileId) (y : Dir)
      → HasEntries (with_file s dir n') d y
      → ((d ≡ dir) × (y.entries ≡ x'.entries)) ⊎ ((dir ≢ d) × HasEntries s d y)
  changed_cases d y (k, there, is_dir) = elim (Bool-cases (d == dir)) [
    | inl q ↦
        let e : ◌≡◌ {A = Option File} (some n') (some k) = rw q at there in
        inl (
          (==_iff d dir).0 q,
          sym (
              ap (λ z. z.entries)
                (directory-same x' y (sym body' ∙ ap (λ z. z.body) (some-same n' k e) ∙ is_dir))),
        )
    | inr q ↦ inr (ne_of_test d dir q, (k, rw q at there, is_dir))
  ]

  kept :
      (j : FileId) (k : File)
      → s.files j ≡ some k
      → (k' : File) × ((with_file s dir n').files j ≡ some k') × (k'.parent ≡ k.parent)
  kept j k h = elim (Bool-cases (j == dir)) [
    | inl q ↦
        let e : some n ≡ some k = sym here ∙ ap s.files (sym ((==_iff j dir).0 q)) ∙ h in
        (n', rw q, parent' ∙ ap (λ z. z.parent) (some-same n k e))
    | inr q ↦ (k, rw q h, refl)
  ]

  pub set_dir-IsTree : IsTree (with_file s dir n')
  set_dir-IsTree = record {
    unused = λ f h. ground (arith, tree.unused f h, tree.unused dir, here);
    names = λ d y h. elim (changed_cases d y h) [
      | inl (e, q) ↦ rw q nodup
      | inr (ne, old) ↦ tree.names d y old
    ];
    single = λ d y c a b h u v. elim (changed_cases d y h) [
      | inl (e, q) ↦ once c a b (rw q at u) (rw q at v)
      | inr (ne, old) ↦ tree.single d y c a b old u v
    ];
    children = λ d y c a h u. elim (changed_cases d y h) [
      | inl (e, q) ↦
          let (k, there, above) = theirs c a (rw q at u) in
          let (k', there', same) = kept c k there in (k', there', same ∙ rw e above)
      | inr (ne, old) ↦
          let (k, there, above) = tree.children d y c a old u in
          let (k', there', same) = kept c k there in (k', there', same ∙ above)
    ];
  }

-- A file that is an entry of no directory may get any parent.
module _ (s : Fs) (f : FileId) (m : File) (q : Option FileId) (tree : IsTree s)
    (here : s.files f ≡ some m)
    (loose : (d : FileId) (y : Dir) (a : Name)
      → HasEntries s d y
      → find_entry a y.entries ≢ some f) where
  abbrev moved : File
  moved = record m { parent = q }

  pub old_entries : (d : FileId) (y : Dir) → HasEntries (with_file s f moved) d y → HasEntries s d y
  old_entries d y (k, there, is_dir) = elim (Bool-cases (d == f)) [
    | inl r ↦
        let e : ◌≡◌ {A = Option File} (some moved) (some k) = rw r at there in
        (m, ap s.files ((==_iff d f).0 r) ∙ here, ap (λ z. z.body) (some-same moved k e) ∙ is_dir)
    | inr r ↦ (k, rw r at there, is_dir)
  ]

  pub set_parent-IsTree : IsTree (with_file s f moved)
  set_parent-IsTree = record {
    unused = λ j h. ground (arith, tree.unused j h, tree.unused f, here);
    names = λ d y h. tree.names d y (old_entries d y h);
    single = λ d y c a b h u v. tree.single d y c a b (old_entries d y h) u v;
    children = λ d y c a h u.
        let (k, there, above) = tree.children d y c a (old_entries d y h) u in
        (k, ground (arith, there, loose d y a (old_entries d y h), u), above);
  }

-- A new record for a directory that keeps its parent, with no entry that was not there.
module _ (s : Fs) (dir : FileId) (n n' : File) (x x' : Dir) (tree : IsTree s)
    (here : s.files dir ≡ some n) (body : n.body ≡ directory x) (body' : n'.body ≡ directory x')
    (parent' : n'.parent ≡ n.parent) (nodup : NodupNames x'.entries)
    (fewer : (a : Name) (c : FileId)
      → find_entry a x'.entries ≡ some c
      → find_entry a x.entries ≡ some c) where
  own : HasEntries s dir x
  own = (n, here, body)

  pub shrink_dir-IsTree : IsTree (with_file s dir n')
  shrink_dir-IsTree =
      set_dir-IsTree s dir n n' x x' tree here body' parent' nodup
        (λ c a b u v. tree.single dir x c a b own (fewer a c u) (fewer b c v))
        (λ c a u. tree.children dir x c a own (fewer a c u))

  pub shrink_dir-fewer :
      (d : FileId) (y : Dir) (a : Name) (c : FileId)
      → HasEntries (with_file s dir n') d y
      → find_entry a y.entries ≡ some c
      → (y' : Dir) × HasEntries s d y' × (find_entry a y'.entries ≡ some c)
  shrink_dir-fewer d y a c h u = elim (Bool-cases (d == dir)) [
    | inl q ↦
        let e : ◌≡◌ {A = Option File} (some n') (some h.0) = rw q at h.1 in
        let same : x' ≡ y =
          directory-same x' y (sym body' ∙ ap (λ z. z.body) (some-same n' h.0 e) ∙ h.2) in
        (x, (n, ap s.files ((==_iff d dir).0 q) ∙ here, body), fewer a c (rw same u))
    | inr q ↦ (y, (h.0, rw q at h.1, h.2), u)
  ]

-- The parent and the entries of a directory as they were, in a new record.
pub touch_dir-IsTree :
    (s : Fs) (dir : FileId) (n n' : File) (x : Dir)
    → IsTree s
    → s.files dir ≡ some n
    → n.body ≡ directory x
    → n'.body ≡ n.body
    → n'.parent ≡ n.parent
    → IsTree (with_file s dir n')
touch_dir-IsTree s dir n n' x tree here body body' parent' =
    shrink_dir-IsTree s dir n n' x x tree here body (body' ∙ body) parent'
      (tree.names dir x (n, here, body)) (λ a c u. u)
