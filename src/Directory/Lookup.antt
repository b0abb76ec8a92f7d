-- ===== src/Directory/Lookup.antt =====
-- Looking a name up in a directory: `Directory::Handle::getChild` of wasmfs/file.cpp.
use emscripten_memfswasm_wra.Base.{
  ℕ, ◌≡◌, sym, ap, ◌∙◌, fun_ext, false, none, some, ◌==◌, arith, Bool-cases, inl, inr, ==_iff,
}
use emscripten_memfswasm_wra.Base.Names.{Name, name_eq, codes}
use emscripten_memfswasm_wra.Memory.Entries.{find_entry, find_cached, Cached}
use emscripten_memfswasm_wra.Store.{
  FileId, directory, Dir, File, Fs, done, update, load, store, get_parent, set_parent,
}
use emscripten_memfswasm_wra.Directory.{load_dir, update_cache, cache_child, look_up, get_child}

-- The directory `dir` is linked below `p`, and its record and entries are these.
pub record IsLinked (s : Fs) (dir p : FileId) (n : File) (x : Dir) : Type 0 where
  pub here : s.files dir ≡ some n
  pub body : n.body ≡ directory x
  pub parent : n.parent ≡ some p

pub update_same {ℓ} : {A : Type ℓ} (f : ℕ → A) (k : ℕ) (v : A) → f k ≡ v → update f k v ≡ f
update_same f k v h = fun_ext λ j. elim (Bool-cases (j == k)) [
  | inl e ↦ let same : j ≡ k = (==_iff j k).0 e in rw e (sym h ∙ ap f (sym same))
  | inr e ↦ rw e
]

-- A directory, linked or not, finds its own entries, which have it as their parent already.
pub look_up-entry :
    (s : Fs) (dir : FileId) (n : File) (x : Dir) (name : Name) (c : FileId) (m : File)
    → s.files dir ≡ some n
    → n.body ≡ directory x
    → find_cached name x.dcache ≡ none
    → find_entry name x.entries ≡ some c
    → s.files c ≡ some m
    → m.parent ≡ some dir
    → look_up dir name s ≡ done (some c) s
unfolding look_up load_dir load cache_child update_cache set_parent store
look_up-entry s dir n x name c m there body unmounted found here above =
    let e : update s.files c (some (record m { parent = some dir })) ≡ s.files =
      update_same s.files c _ (here ∙ ap some (λ i. record m { parent = above i })) in
    let g : look_up dir name s
        ≡ done (some c)
            (record s { files = update s.files c (some (record m { parent = some dir })) }) =
      ground arith in
    g ∙ ap (λ f. done (some c) (record s { files = f })) e

pub look_up-cached :
    (s : Fs) (dir : FileId) (n : File) (x : Dir) (name : Name) (c : Cached)
    → s.files dir ≡ some n
    → n.body ≡ directory x
    → find_cached name x.dcache ≡ some c
    → look_up dir name s ≡ done (some c.file) s
unfolding look_up load_dir load
look_up-cached s dir n x name c there body found = ground arith

module _ (s : Fs) (dir p : FileId) (n : File) (x : Dir) (name : Name)
    (linked : IsLinked s dir p n x) (unmounted : find_cached name x.dcache ≡ none) where
  pub look_up-child :
      (c : FileId) (m : File)
      → find_entry name x.entries ≡ some c
      → s.files c ≡ some m
      → m.parent ≡ some dir
      → look_up dir name s ≡ done (some c) s
  look_up-child c m found here above =
      look_up-entry s dir n x name c m linked.here linked.body unmounted found here above

  pub look_up-none : find_entry name x.entries ≡ none → look_up dir name s ≡ done none s
  unfolding look_up load_dir load
  look_up-none missing = ground (arith, linked.here, linked.body)

  pub get_child-look_up :
      name_eq name (codes ".") ≡ false
      → name_eq name (codes "..") ≡ false
      → get_child dir name s ≡ look_up dir name s
  unfolding get_child get_parent load
  get_child-look_up dot dots = ground (arith, linked.here, linked.parent)
