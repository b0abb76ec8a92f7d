-- ===== src/JsApi/WriteFile.antt =====
-- `_wasmfs_write_file`.
use emscripten_memfswasm_wra.Base.{
  ◌∙◌, ◌+◌, ◌≤◌, ◌≡◌, refl, sym, ap, none, some, length, ◌++◌, arith,
}
use emscripten_memfswasm_wra.Base.Names.{Name}
use emscripten_memfswasm_wra.Posix.{at_fdcwd}
use emscripten_memfswasm_wra.Memory.DataFile.{Bytes, max_size}
use emscripten_memfswasm_wra.Memory.Entries.{find_entry, find_cached}
use emscripten_memfswasm_wra.Store.{FileId, Dir, File, Fs, memory_file, data_file, done, load}
use emscripten_memfswasm_wra.Files.{get_size, notify}
use emscripten_memfswasm_wra.Directory.Lookup.{IsLinked, look_up-child, get_child-look_up}
use emscripten_memfswasm_wra.Directory.Tree.{IsTree, some-same}
use emscripten_memfswasm_wra.Directory.Tree.Contents.{set_data-IsTree}
use emscripten_memfswasm_wra.Paths.{parse_parent}
use emscripten_memfswasm_wra.Syscalls.Io.Writing.{with_bytes, write_file-memory}
use emscripten_memfswasm_wra.Syscalls.Io.Append.{after_write_end}
use emscripten_memfswasm_wra.Syscalls.Open.Mkdir.{IsPlain}
use emscripten_memfswasm_wra.JsApi.{child_to_write, write_at_end, write_whole}

pub write_at_end-eq :
    (s : Fs) (f : FileId) (n : File) (b bytes : Bytes)
    → s.files f ≡ some n
    → n.body ≡ data_file (memory_file b)
    → length b + length bytes ≤ max_size
    → write_at_end f bytes s ≡ done 0 (with_bytes s f n (b ++ bytes))
unfolding write_at_end get_size notify load
write_at_end-eq s f n b bytes here body fits =
    let w = write_file-memory s f n b bytes (length b) (here, body) (omega arith) fits in
    let e = after_write_end bytes b in ground (arith, here, body, w, e)

module _ (s : Fs) (dir p : FileId) (n : File) (x : Dir) (name path : Name) (bytes : Bytes)
    (linked : IsLinked s dir p n x) (tree : IsTree s) (unmounted : find_cached name x.dcache ≡ none)
    (plain : IsPlain name) (parsed : parse_parent path at_fdcwd s ≡ done (dir, name) s) where
  -- In a tree that is in shape, `_wasmfs_write_file` of a file of the memory backend that a linked
  -- directory has as an entry, and not as a cached one, puts the bytes at the end of the file, and
  -- returns 0 however many there are, if the result fits into a vector. The tree keeps its shape. The
  -- path is parsed to the directory and a plain name.
  pub write_whole_appends :
      (c : FileId) (m : File) (b : Bytes)
      → find_entry name x.entries ≡ some c
      → s.files c ≡ some m
      → m.body ≡ data_file (memory_file b)
      → length b + length bytes ≤ max_size
      → (write_whole path bytes s ≡ done 0 (with_bytes s c m (b ++ bytes)))
        × IsTree (with_bytes s c m (b ++ bytes))
  unfolding write_whole child_to_write load
  write_whole_appends c m b found child memory fits =
      let (m', here, up) = tree.children dir x c name (n, linked.here, linked.body) found in
      let above = ap (λ z. z.parent) (some-same m m' (sym child ∙ here)) ∙ up in
      let g =
        get_child-look_up s dir p n x name linked unmounted plain.1 plain.2
        ∙ look_up-child s dir p n x name linked unmounted c m found child above in
      let w = write_at_end-eq s c m b bytes child memory fits in
      (
        ground (arith, parsed, g, child, memory, w),
        set_data-IsTree s c m (record m { body = data_file (memory_file (b ++ bytes)) })
            (memory_file (b ++ bytes)) tree child refl refl,
      )
