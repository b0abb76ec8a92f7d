-- ===== src/Syscalls/Open/Mkdir.antt =====
-- `doMkdir`, once its path is parsed.
use emscripten_memfswasm_wra.Base.{
  ◌∙◌, ℕ, ◌≤◌, ◌≡◌, ap, sym, true, false, none, some, [], length, arith, bit_and, bit_or,
}
use emscripten_memfswasm_wra.Base.Names.{Name, name_eq, codes}
use emscripten_memfswasm_wra.Posix.{eexist, s_irwxugo, s_isvtx, s_ifdir, has}
use emscripten_memfswasm_wra.Memory.Entries.{find_entry, find_cached}
use emscripten_memfswasm_wra.Store.{
  FileId, directory, Dir, File, Fs, value, done, fail, load, get_mode, get_backend,
}
use emscripten_memfswasm_wra.Files.{create_directory}
use emscripten_memfswasm_wra.Directory.{insert_directory, look_up}
use emscripten_memfswasm_wra.Directory.Lookup.{
  IsLinked, look_up-child, look_up-none, get_child-look_up,
}
use emscripten_memfswasm_wra.Directory.Tree.{IsTree, directory-same}
use emscripten_memfswasm_wra.Directory.Tree.Inserted.{insert_with-IsTree}
use emscripten_memfswasm_wra.Syscalls.Open.{do_mkdir, make_child, null_backend, perm_write}

abbrev empty_dir : Dir
empty_dir = record { entries = []; dcache = [] }

-- A name of at most 255 bytes that is neither `.` nor `..`.
abbrev pub IsPlain : Name → Type 0
IsPlain name =
    (length name ≤ 255) × (name_eq name (codes ".") ≡ false) × (name_eq name (codes "..") ≡ false)

module _ (s : Fs) (dir p : FileId) (n : File) (x : Dir) (name : Name) (mode : ℕ)
    (linked : IsLinked s dir p n x) (tree : IsTree s) (unmounted : find_cached name x.dcache ≡ none)
    (plain : IsPlain name) where
  -- In a tree that is in shape, `mkdir` of a plain name that a linked directory has as an entry, and
  -- not as a cached one, fails with `EEXIST` and changes nothing.
  pub mkdir_existing :
      (c : FileId)
      → find_entry name x.entries ≡ some c
      → do_mkdir (value (dir, name)) mode null_backend s ≡ fail eexist s
  unfolding do_mkdir
  mkdir_existing c found =
      let (m, here, above) = tree.children dir x c name (n, linked.here, linked.body) found in
      let l = look_up-child s dir p n x name linked unmounted c m found here above in
      let g = get_child-look_up s dir p n x name linked unmounted plain.1 plain.2 ∙ l in
      ground (arith, g, plain.0)

  -- In a tree that is in shape, `mkdir` of a plain name that is free in a linked and writable
  -- directory, cached entries included, succeeds. The tree keeps its shape, and the directory then
  -- finds the new one under the name.
  pub mkdir_creates :
      find_entry name x.entries ≡ none
      → has n.mode perm_write ≡ true
      → (u : Fs) × (do_mkdir (value (dir, name)) mode null_backend s ≡ done tt u)
        × IsTree u
        × (look_up dir name u ≡ done (some s.next_file) u)
  unfolding do_mkdir make_child insert_directory create_directory get_mode get_backend load
  mkdir_creates free writable =
      let perms = bit_or (bit_and mode (bit_or s_irwxugo s_isvtx)) s_ifdir in
      let (u, made, shape, there) =
        insert_with-IsTree s dir p n x (directory empty_dir) perms name linked tree free
          (λ y e. ap (λ z. z.entries) (sym (directory-same empty_dir y e))) unmounted in
      let l = look_up-none s dir p n x name linked unmounted free in
      let g = get_child-look_up s dir p n x name linked unmounted plain.1 plain.2 ∙ l in
      (u, ground (arith, g, made, plain.0, linked.here, writable), shape, there)
