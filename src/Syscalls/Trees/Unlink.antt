-- ===== src/Syscalls/Trees/Unlink.antt =====
-- `unlinkat`, once its path is parsed.
use emscripten_memfswasm_wra.Base.{
  ◌∙◌, ℕ, ◌<◌, ◌≡◌, ◌≢◌, sym, ap, true, false, none, some, length, ◌+◌, arith,
}
use emscripten_memfswasm_wra.Base.Names.{Name}
use emscripten_memfswasm_wra.Posix.{enotempty, at_removedir, has}
use emscripten_memfswasm_wra.Memory.Entries.{find_entry, find_cached, mounts}
use emscripten_memfswasm_wra.Store.{
  FileId, Dir, File, Fs, DataImpl, data_file, directory, done, fail, load, get_mode,
}
use emscripten_memfswasm_wra.Directory.{look_up, get_child, get_num_entries, load_dir}
use emscripten_memfswasm_wra.Directory.Lookup.{IsLinked, look_up-child, get_child-look_up}
use emscripten_memfswasm_wra.Directory.Tree.{IsTree, some-same}
use emscripten_memfswasm_wra.Directory.Tree.Removed.{remove_child-IsTree}
use emscripten_memfswasm_wra.Paths.{parse_parent, strip_trailing}
use emscripten_memfswasm_wra.Syscalls.Open.{perm_write}
use emscripten_memfswasm_wra.Syscalls.Open.Mkdir.{IsPlain}
use emscripten_memfswasm_wra.Syscalls.Trees.{unlinkat, check_removable, ends_slash_dot}

module _ (s : Fs) (dir p : FileId) (n : File) (x : Dir) (name path : Name) (dirfd : ℕ)
    (linked : IsLinked s dir p n x) (tree : IsTree s) (unmounted : find_cached name x.dcache ≡ none)
    (plain : IsPlain name) (parsed : parse_parent path dirfd s ≡ done (dir, name) s) (c : FileId)
    (m : File) (found : find_entry name x.entries ≡ some c) (child : s.files c ≡ some m)
    (inner : c ≢ s.root) where
  above : m.parent ≡ some dir
  above =
      let (m', here, up) = tree.children dir x c name (n, linked.here, linked.body) found in
      ap (λ z. z.parent) (some-same m m' (sym child ∙ here)) ∙ up

  found-eq : get_child dir name s ≡ done (some c) s
  found-eq =
      get_child-look_up s dir p n x name linked unmounted plain.1 plain.2
      ∙ look_up-child s dir p n x name linked unmounted c m found child above

  -- In a tree that is in shape, unlinking a data file of a linked and writable directory, which has it
  -- as an entry and not as a cached one, succeeds. The tree keeps its shape, the name is then free,
  -- and the file has no parent. The path is parsed to the directory and a plain name.
  pub unlink_removes :
      (impl : DataImpl)
      → m.body ≡ data_file impl
      → c ≢ dir
      → has n.mode perm_write ≡ true
      → (u : Fs) × (unlinkat dirfd path 0 s ≡ done tt u)
        × IsTree u
        × (look_up dir name u ≡ done none u)
        × (u.files c ≡ some (record m { parent = none }))
  unfolding unlinkat check_removable get_mode load has
  unlink_removes impl is_file other writable =
      let (u, removed, shape, gone, orphan) =
        remove_child-IsTree s dir p n x c m name linked tree found child unmounted other in
      let g = found-eq in
      (
        u,
        ground (arith, parsed, g, removed, child, is_file, linked.here, writable, inner),
        shape,
        gone,
        orphan,
      )

  -- In a tree that is in shape, removing a directory that has an entry or a mount point, under a path
  -- that does not end in `/.`, fails with `ENOTEMPTY` and changes nothing. The path is parsed to a
  -- linked directory, which has the directory as an entry and not as a cached one, and a plain name.
  pub rmdir_nonempty :
      (y : Dir)
      → m.body ≡ directory y
      → 0 < length y.entries + length (mounts y.dcache)
      → ends_slash_dot (strip_trailing path) ≡ false
      → unlinkat dirfd path at_removedir s ≡ fail enotempty s
  unfolding unlinkat check_removable get_num_entries load_dir load has
  rmdir_nonempty y is_dir full path_ok =
      let g = found-eq in ground (arith, parsed, g, child, is_dir, inner, full, path_ok)
