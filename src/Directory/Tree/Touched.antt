-- ===== src/Directory/Tree/Touched.antt =====
-- `File::Handle::updateMTime` of a directory, and the shape of the tree.
use emscripten_memfswasm_wra.Base.{
  ◌∙◌, ℕ, ◌+◌, ◌≡◌, inl, inr, refl, sym, ap, some, arith, Bool-cases, ◌==◌, ==_iff,
}
use emscripten_memfswasm_wra.Store.{
  FileId, directory, Dir, File, Fs, done, load, store, date_now, set_mtime, update_mtime,
}
use emscripten_memfswasm_wra.Directory.Tree.{IsTree, some-same}
use emscripten_memfswasm_wra.Directory.Tree.Changes.{with_file, touch_dir-IsTree}

-- What two states have in common if files were touched between them, but not moved.
pub record Touched (s t : Fs) : Type 0 where
  pub tree : IsTree t
  pub root : t.root ≡ s.root
  pub kept :
      (j : FileId) (k : File)
      → s.files j ≡ some k
      → (k' : File) × (t.files j ≡ some k') × (k'.body ≡ k.body) × (k'.parent ≡ k.parent)

-- The number of calls of the host is no part of the tree.
pub calls-IsTree : (s : Fs) (k : ℕ) → IsTree s → IsTree (record s { calls = k })
calls-IsTree s k tree = record {
  unused = tree.unused;
  names = tree.names;
  single = tree.single;
  children = tree.children;
}

module _ (s : Fs) (dir : FileId) (n : File) (x : Dir) (tree : IsTree s)
    (here : s.files dir ≡ some n) (body : n.body ≡ directory x) where
  abbrev n1 : File
  n1 = record n { mtime = s.host.date_now s.calls }

  abbrev t : Fs
  t = with_file (record s { calls = s.calls + 1 }) dir n1

  kept :
      (j : FileId) (k : File)
      → s.files j ≡ some k
      → (k' : File) × (t.files j ≡ some k') × (k'.body ≡ k.body) × (k'.parent ≡ k.parent)
  kept j k h = elim (Bool-cases (j == dir)) [
    | inl q ↦
        let e : some n ≡ some k = sym here ∙ ap s.files (sym ((==_iff j dir).0 q)) ∙ h in
        (n1, rw q, ap (λ z. z.body) (some-same n k e), ap (λ z. z.parent) (some-same n k e))
    | inr q ↦ (k, rw q h, refl, refl)
  ]

  pub update_mtime-Touched : (t : Fs) × (update_mtime dir s ≡ done tt t) × Touched s t
  unfolding update_mtime date_now set_mtime load store
  update_mtime-Touched = (
    t,
    ground (arith, here),
    record {
      tree =
          touch_dir-IsTree (record s { calls = s.calls + 1 }) dir n n1 x
            (calls-IsTree s (s.calls + 1) tree) here body refl refl;
      root = refl;
      kept = kept;
    },
  )
