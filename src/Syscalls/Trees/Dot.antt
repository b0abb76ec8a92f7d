-- ===== src/Syscalls/Trees/Dot.antt =====
-- `renameat` to the name `.` of a directory.
use emscripten_memfswasm_wra.Base.{
  ◌∙◌, ℕ, ◌≡◌, ◌≢◌, refl, sym, ap, true, none, some, List, [], arith,
}
use emscripten_memfswasm_wra.Base.Names.{Name, codes, name_eq}
use emscripten_memfswasm_wra.Base.Distinct.{Absent}
use emscripten_memfswasm_wra.Posix.{has}
use emscripten_memfswasm_wra.Memory.Entries.{find_entry, find_cached, find_cached_file, mounts}
use emscripten_memfswasm_wra.Store.{
  FileId, directory, Dir, File, Fs, done, get_mode, get_backend, get_parent, load,
}
use emscripten_memfswasm_wra.Directory.{load_dir, look_up, get_child, get_num_entries}
use emscripten_memfswasm_wra.Directory.Lookup.{IsLinked, look_up-child, get_child-look_up}
use emscripten_memfswasm_wra.Directory.Tree.{IsTree, some-same, no_entry_in_nil}
use emscripten_memfswasm_wra.Directory.Tree.Moved.{insert_move-Moved}
use emscripten_memfswasm_wra.Directory.Tree.Down.{Down}
use emscripten_memfswasm_wra.Directory.Tree.Depth.{visited}
use emscripten_memfswasm_wra.Paths.{parse_parent}
use emscripten_memfswasm_wra.Syscalls.Open.{perm_write}
use emscripten_memfswasm_wra.Syscalls.Open.Mkdir.{IsPlain}
use emscripten_memfswasm_wra.Syscalls.Trees.{check_overwrite, rename_checked, renameat}
use emscripten_memfswasm_wra.Syscalls.Trees.Rename.{search_passes, start_ne}

abbrev dot : Name
dot = codes "."

module _ (s : Fs) (dir p old q file : FileId) (n no m : File) (x xo y : Dir) (old_name : Name)
    (tree : IsTree s) (linked : IsLinked s dir p n x) (from : IsLinked s old q no xo)
    (there : s.files file ≡ some m) (is_dir : m.body ≡ directory y)
    (entry : find_entry old_name xo.entries ≡ some file) (empty : x.entries ≡ [])
    (no_cache : x.dcache ≡ []) (uncached : find_cached_file file xo.dcache ≡ none)
    (uncached_old : find_cached old_name xo.dcache ≡ none) (not_root : dir ≢ s.root)
    (not_into : file ≢ dir) (not_self : file ≢ old) where
  found_old : IsPlain old_name → get_child old old_name s ≡ done (some file) s
  found_old plain =
      let (m', here, up) = tree.children old xo file old_name (no, from.here, from.body) entry in
      let above = ap (λ z. z.parent) (some-same m m' (sym there ∙ here)) ∙ up in
      get_child-look_up s old q no xo old_name from uncached_old plain.1 plain.2
      ∙ look_up-child s old q no xo old_name from uncached_old file m entry there above

  found_dot :
      (t : Fs) (k : File)
      → t.files dir ≡ some k
      → k.parent ≡ some p
      → get_child dir dot t ≡ done (some dir) t
  unfolding get_child get_parent load name_eq
  found_dot t k here above = ground (arith, here, above)

  no_entries : get_num_entries dir s ≡ done 0 s
  unfolding get_num_entries load_dir load mounts
  no_entries = ground (arith, linked.here, linked.body, empty, no_cache)

  no_entry : (c : FileId) → find_entry dot x.entries ≢ some c
  no_entry c e = no_entry_in_nil dot c (ap (find_entry dot) (sym empty) ∙ e)

  no_mount : find_cached dot x.dcache ≡ none
  unfolding find_cached
  no_mount = rw no_cache refl

  -- In a tree that is in shape, renaming a directory to `.` in an empty directory succeeds. The
  -- directory becomes an entry of the name `.`, under which a search finds the empty directory itself.
  -- The paths are parsed to the linked and writable directories, of the same backend, and to a plain old
  -- name and `.`; the empty directory is not the root, is reached from the root by names, and not
  -- through the renamed one, and no cached entry is in the way.
  pub rename_to_dot :
      (oldpath newpath : Name) (olddirfd newdirfd : ℕ)
      → parse_parent oldpath olddirfd s ≡ done (old, old_name) s
      → parse_parent newpath newdirfd s ≡ done (dir, dot) s
      → IsPlain old_name
      → has no.mode perm_write ≡ true
      → has n.mode perm_write ≡ true
      → no.backend ≡ n.backend
      → (ns : List Name) (down : Down s s.root ns dir) → Absent file (visited s tree down)
      → (t : Fs) × (renameat olddirfd oldpath newdirfd newpath s ≡ done tt t)
        × (look_up dir dot t ≡ done (some file) t)
        × (get_child dir dot t ≡ done (some dir) t)
  unfolding renameat rename_checked check_overwrite get_mode get_backend load
  rename_to_dot oldpath newpath olddirfd newdirfd po pn plain_old wo wn same ns down off =
      let search = search_passes s tree file dir ns down off in
      let inner : file ≢ s.root = start_ne s tree file s.root dir ns down off in
      let (t, moved, k) =
        insert_move-Moved s dir p old file n no m x xo dot old_name tree linked from.here from.body
          there entry uncached no_mount not_into not_self (no_entry dir) (no_entry old) in
      let go = found_old plain_old in
      let gn = found_dot s n linked.here linked.parent in
      let (k', here, up) = k.kept dir n (λ e. not_into (sym e)) (no_entry dir) linked.here in
      (
        t,
        ground (
          arith, po, pn, go, gn, from.here, linked.here, linked.body, there, is_dir, wo, wn, same,
          inner, not_root, not_into, no_entries, search, moved,
        ),
        k.found,
        found_dot t k' here (up ∙ linked.parent),
      )
