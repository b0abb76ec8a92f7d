-- ===== src/Directory/Tree/Contents.antt =====
-- The contents of a data file, and the shape of the tree.
use emscripten_memfswasm_wra.Base.{
  ◌∙◌, ◌≡◌, ◌≢◌, inl, inr, refl, sym, ap, Option, some, ◌==◌, arith, Bool-cases, ==_iff,
}
use emscripten_memfswasm_wra.Store.{FileId, DataImpl, Body, data_file, directory, Dir, File, Fs}
use emscripten_memfswasm_wra.Directory.Tree.{HasEntries, IsTree, some-same}
use emscripten_memfswasm_wra.Directory.Tree.Changes.{with_file}

data_file≢directory : (impl : DataImpl) (y : Dir) (b : Body) → b ≡ data_file impl → b ≢ directory y
data_file≢directory impl y b e f = let g : data_file impl ≡ directory y = sym e ∙ f in cc

module _ (s : Fs) (f : FileId) (m m' : File) (impl : DataImpl) (tree : IsTree s)
    (here : s.files f ≡ some m) (body' : m'.body ≡ data_file impl)
    (parent' : m'.parent ≡ m.parent) where
  old_entries : (d : FileId) (y : Dir) → HasEntries (with_file s f m') d y → HasEntries s d y
  old_entries d y (k, there, is_dir) = elim (Bool-cases (d == f)) [
    | inl r ↦
        let e : ◌≡◌ {A = Option File} (some m') (some k) = rw r at there in
        absurd
          (data_file≢directory impl y m'.body body' (ap (λ z. z.body) (some-same m' k e) ∙ is_dir))
    | inr r ↦ (k, rw r at there, is_dir)
  ]

  kept :
      (j : FileId) (k : File)
      → s.files j ≡ some k
      → (k' : File) × ((with_file s f m').files j ≡ some k') × (k'.parent ≡ k.parent)
  kept j k h = elim (Bool-cases (j == f)) [
    | inl q ↦
        let e : some m ≡ some k = sym here ∙ ap s.files (sym ((==_iff j f).0 q)) ∙ h in
        (m', rw q, parent' ∙ ap (λ z. z.parent) (some-same m k e))
    | inr q ↦ (k, rw q h, refl)
  ]

  pub set_data-IsTree : IsTree (with_file s f m')
  set_data-IsTree = record {
    unused = λ j h. ground (arith, tree.unused j h, tree.unused f, here);
    names = λ d y h. tree.names d y (old_entries d y h);
    single = λ d y c a b h u v. tree.single d y c a b (old_entries d y h) u v;
    children = λ d y c a h u.
        let (k, there, above) = tree.children d y c a (old_entries d y h) u in
        let (k', there', same) = kept c k there in (k', there', same ∙ above);
  }
