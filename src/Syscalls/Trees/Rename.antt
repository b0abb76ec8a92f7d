-- ===== src/Syscalls/Trees/Rename.antt =====
-- `renameat`: the move of a file, and renaming into a directory that was removed while a descriptor
-- still refers to it.
use emscripten_memfswasm_wra.Base.{
  ◌∙◌, subst, ℕ, zero, suc, ◌+◌, ◌-◌, refl, List, length, ◌≡◌, ◌≢◌, inl, inr, sym, ap, true, Option,
  none, some, arith, ◌==◌, Bool-cases, Option-cases, ==_iff, ne_of_test,
}
use emscripten_memfswasm_wra.Base.Names.{Name}
use emscripten_memfswasm_wra.Posix.{has}
use emscripten_memfswasm_wra.Memory.Entries.{find_entry, find_cached, find_cached_file}
use emscripten_memfswasm_wra.Store.{
  FileId, Dir, File, Fs, done, get_mode, get_backend, get_parent, load,
}
use emscripten_memfswasm_wra.Directory.{look_up, get_child}
use emscripten_memfswasm_wra.Directory.Lookup.{
  IsLinked, look_up-child, look_up-none, get_child-look_up,
}
use emscripten_memfswasm_wra.Directory.Tree.{IsTree, some-same}
use emscripten_memfswasm_wra.Directory.Tree.Moved.{insert_move-Moved}
use emscripten_memfswasm_wra.Directory.Tree.Rooted.{
  Rooted, Avoids, root_avoids, step_avoids, Moved-Rooted,
}
use emscripten_memfswasm_wra.Directory.Tree.Down.{IsStep, Down, arrived, into, step-parent}
use emscripten_memfswasm_wra.Directory.Tree.Depth.{visited, depth_bound}
use emscripten_memfswasm_wra.Base.Distinct.{Absent}
use emscripten_memfswasm_wra.Paths.{parse_parent}
use emscripten_memfswasm_wra.Syscalls.Open.{perm_write}
use emscripten_memfswasm_wra.Syscalls.Open.Mkdir.{IsPlain}
use emscripten_memfswasm_wra.Syscalls.Trees.{
  check_ancestors, check_overwrite, rename_checked, renameat,
}

none≢some : {j : FileId} → ◌≢◌ {A = Option FileId} none (some j)
none≢some e = cc

-- A search above a directory that ends well met the root, and the moved file not before.
check_ancestors-Avoids :
    (fuel : ℕ) (s t : Fs) (file curr : FileId)
    → check_ancestors fuel s.root file curr s ≡ done tt t
    → Avoids s file curr
unfolding check_ancestors get_parent load
check_ancestors-Avoids zero s t file curr h = cc
check_ancestors-Avoids (suc fuel) s t file curr h = elim (Bool-cases (curr == s.root)) [
  | inl q ↦ subst (Avoids s file) (sym ((==_iff curr s.root).0 q)) root_avoids
  | inr q ↦ elim (Bool-cases (curr == file)) [
    | inl r ↦ ground (arith, h, q, r)
    | inr r ↦ elim (Option-cases (s.files curr)) [
      | inl gone ↦ ground (arith, h, q, r, gone)
      | inr (n, here) ↦ elim (Option-cases n.parent) [
        | inl orphan ↦ ground (arith, h, q, r, here, orphan)
        | inr (p, above) ↦
            step_avoids curr p n (λ e. ne_of_test curr file r (sym e)) here above
              (check_ancestors-Avoids fuel s t file p (ground (arith, h, q, r, here, above)))
      ]
    ]
  ]
]

pub start_ne :
    (s : Fs) (tree : IsTree s) (file a d : FileId) (ns : List Name) (below : Down s a ns d)
    → Absent file (visited s tree below)
    → file ≢ a
start_ne s tree file a d ns (arrived b p n x l) off = off.0
start_ne s tree file a d ns (into b c e name rest step below) off = off.0

search_step :
    (s : Fs) (tree : IsTree s) (file a c : FileId) (name : Name)
    → IsStep s a name c
    → (fuel : ℕ) → file ≢ c
    → check_ancestors (suc fuel) s.root file c s ≡ check_ancestors fuel s.root file a s
unfolding check_ancestors get_parent load
search_step s tree file a c name step fuel other =
    let (m, there, above) = step-parent s tree a c name step in
    ground (arith, step.not_root, there, above, other)

-- The search goes up the way that leads down to a directory.
search_up :
    (s : Fs) (tree : IsTree s) (file a d : FileId) (ns : List Name) (fuel : ℕ)
    (below : Down s a ns d)
    → Absent file (visited s tree below)
    → check_ancestors (length ns + suc fuel) s.root file d s
      ≡ check_ancestors (suc fuel) s.root file a s
search_up s tree file a d ns fuel (arrived b p n x l) off =
    let e : 0 + suc fuel ≡ suc fuel = omega arith in rw e refl
search_up s tree file a d ns fuel (into b c e name rest step below) off =
    let k : suc (length rest) + suc fuel ≡ length rest + suc (suc fuel) = omega arith in
    rw k (
      search_up s tree file c e rest (suc fuel) below off.1
      ∙ search_step s tree file b c name step (suc fuel)
          (start_ne s tree file c e rest below off.1))

pub search_passes :
    (s : Fs) (tree : IsTree s) (file d : FileId) (ns : List Name) (way : Down s s.root ns d)
    → Absent file (visited s tree way)
    → check_ancestors (s.next_file + 1) s.root file d s ≡ done tt s
unfolding check_ancestors
search_passes s tree file d ns way off =
    let deep = depth_bound s tree d ns way in
    let fuel = s.next_file - length ns in
    let e : s.next_file + 1 ≡ length ns + suc fuel = omega (arith, deep) in
    rw e (search_up s tree file s.root d ns fuel way off ∙ ground arith)

module _ (s : Fs) (dir p old q file : FileId) (n no m : File) (x xo : Dir) (name old_name : Name)
    (tree : IsTree s) (linked : IsLinked s dir p n x) (from : IsLinked s old q no xo)
    (there : s.files file ≡ some m) (entry : find_entry old_name xo.entries ≡ some file)
    (free : find_entry name x.entries ≡ none) (uncached : find_cached_file file xo.dcache ≡ none)
    (uncached_old : find_cached old_name xo.dcache ≡ none)
    (unmounted : find_cached name x.dcache ≡ none) (not_into : file ≢ dir)
    (not_self : file ≢ old) where
  found_old : IsPlain old_name → get_child old old_name s ≡ done (some file) s
  found_old plain =
      let (m', here, up) = tree.children old xo file old_name (no, from.here, from.body) entry in
      let above = ap (λ z. z.parent) (some-same m m' (sym there ∙ here)) ∙ up in
      get_child-look_up s old q no xo old_name from uncached_old plain.1 plain.2
      ∙ look_up-child s old q no xo old_name from uncached_old file m entry there above

  found_new : IsPlain name → get_child dir name s ≡ done none s
  found_new plain =
      get_child-look_up s dir p n x name linked unmounted plain.1 plain.2
      ∙ look_up-none s dir p n x name linked unmounted free

  -- In a tree that is in shape, `rename` of an entry of a linked and writable directory to a free
  -- name of a linked and writable directory of the same backend succeeds: the tree keeps its shape,
  -- the new directory finds the file under the new name, and the parents of the file lead to the root.
  -- The paths are parsed to the directories and plain names, the new directory is reached from the root
  -- by names, and not through the file, which is not the old directory either, and no cached entry is
  -- in the way.
  pub rename_moves :
      (oldpath newpath : Name) (olddirfd newdirfd : ℕ)
      → parse_parent oldpath olddirfd s ≡ done (old, old_name) s
      → parse_parent newpath newdirfd s ≡ done (dir, name) s
      → IsPlain old_name
      → IsPlain name
      → has no.mode perm_write ≡ true
      → has n.mode perm_write ≡ true
      → no.backend ≡ n.backend
      → (ns : List Name) (down : Down s s.root ns dir) → Absent file (visited s tree down)
      → (t : Fs) × (renameat olddirfd oldpath newdirfd newpath s ≡ done tt t)
        × IsTree t
        × (look_up dir name t ≡ done (some file) t)
        × Rooted t file
  unfolding renameat rename_checked check_overwrite get_mode get_backend load
  rename_moves oldpath newpath olddirfd newdirfd po pn plain_old plain wo wn same ns down off =
      let search = search_passes s tree file dir ns down off in
      let inner : file ≢ s.root = start_ne s tree file s.root dir ns down off in
      let way = check_ancestors-Avoids (s.next_file + 1) s s file dir search in
      let (t, moved, m) =
        insert_move-Moved s dir p old file n no m x xo name old_name tree linked from.here from.body
          there entry uncached unmounted not_into not_self (λ e. none≢some (sym free ∙ e))
          (λ e. none≢some (sym free ∙ e)) in
      let go = found_old plain_old in
      let gn = found_new plain in
      (
        t,
        ground (
          arith, po, pn, go, gn, plain.0, from.here, linked.here, wo, wn, same, inner, search,
          moved,
        ),
        m.tree,
        m.found,
        Moved-Rooted s t dir file name x m free way,
      )
