-- ===== src/Directory/Tree/Down.antt =====
-- The directories below a directory, by the names that lead to them.
use emscripten_memfswasm_wra.Base.{◌∙◌, ◌≡◌, ◌≢◌, false, none, some, List, [], ◌∷◌, arith}
use emscripten_memfswasm_wra.Base.Names.{Name, name_eq, codes}
use emscripten_memfswasm_wra.Memory.Entries.{find_entry, find_cached}
use emscripten_memfswasm_wra.Memory.Entries.Laws.{get_name-find_entry}
use emscripten_memfswasm_wra.Store.{FileId, Dir, File, Fs, done, load}
use emscripten_memfswasm_wra.Directory.{load_dir, get_child, get_name}
use emscripten_memfswasm_wra.Directory.Lookup.{IsLinked, look_up-child, get_child-look_up}
use emscripten_memfswasm_wra.Directory.Tree.{HasEntries, IsTree}

-- `name` leads from the directory `a` to the child `c`: an entry that is not cached, not the root, and
-- neither `.` nor `..`.
pub record IsStep (s : Fs) (a : FileId) (name : Name) (c : FileId) : Type 0 where
  pub up : FileId
  pub record_of : File
  pub inside : Dir
  pub linked : IsLinked s a up record_of inside
  pub entry : find_entry name inside.entries ≡ some c
  pub uncached : find_cached name inside.dcache ≡ none
  pub not_dot : name_eq name (codes ".") ≡ false
  pub not_dots : name_eq name (codes "..") ≡ false
  pub not_root : c ≢ s.root

-- The names lead from the directory `a` down to the directory `d`.
pub data Down (s : Fs) : FileId → List Name → FileId → Type 0 where
  arrived : (a p : FileId) (n : File) (x : Dir) → IsLinked s a p n x → Down s a [] a
  into :
      (a c d : FileId) (name : Name) (ns : List Name)
      → IsStep s a name c
      → Down s c ns d
      → Down s a (name ∷ ns) d

module _ (s : Fs) (tree : IsTree s) (a c : FileId) (name : Name) (step : IsStep s a name c) where
  child_of : (m : File) × (s.files c ≡ some m) × (m.parent ≡ some a)
  child_of =
      tree.children a step.inside c name (step.record_of, step.linked.here, step.linked.body)
        step.entry

  pub step-get_child : get_child a name s ≡ done (some c) s
  step-get_child =
      let (m, there, above) = child_of in
      get_child-look_up s a step.up step.record_of step.inside name step.linked step.uncached
        step.not_dot step.not_dots
      ∙ look_up-child s a step.up step.record_of step.inside name step.linked step.uncached c m
          step.entry there above

  pub step-parent : (m : File) × (s.files c ≡ some m) × (m.parent ≡ some a)
  step-parent = child_of

  pub step-get_name : get_name a c s ≡ done name s
  unfolding get_name load_dir load
  step-get_name =
      let own : HasEntries s a step.inside = (step.record_of, step.linked.here, step.linked.body) in
      let found =
        get_name-find_entry c name step.inside.entries (tree.names a step.inside own)
          (λ n m u v. tree.single a step.inside c n m own u v) step.entry in
      ground (arith, step.linked.here, step.linked.body, found)
