-- ===== src/Instance/Preload/Files.antt =====
-- The preloading of one file.
use emscripten_memfswasm_wra.Base.{
  ◌∙◌, ◌+◌, ◌≤◌, ◌≡◌, ◌≢◌, refl, none, some, [], length, arith, bit_or,
}
use emscripten_memfswasm_wra.Base.Names.{Name, name_eq_refl}
use emscripten_memfswasm_wra.Posix.{at_fdcwd, s_ifreg}
use emscripten_memfswasm_wra.Memory.DataFile.{max_size}
use emscripten_memfswasm_wra.Memory.Entries.{find_entry, find_cached, insert_child}
use emscripten_memfswasm_wra.Store.{
  FileId, Body, Dir, File, Fs, directory, memory_file, data_file, done,
}
use emscripten_memfswasm_wra.Files.{create_file}
use emscripten_memfswasm_wra.Directory.{look_up, insert_data_file}
use emscripten_memfswasm_wra.Directory.Insert.{created, after_insert, insert_with-eq}
use emscripten_memfswasm_wra.Directory.Lookup.{IsLinked, look_up-child}
use emscripten_memfswasm_wra.Directory.Tree.{IsTree}
use emscripten_memfswasm_wra.Directory.Tree.Inserted.{after_insert-IsTree, old_dir}
use emscripten_memfswasm_wra.Directory.Tree.Contents.{set_data-IsTree}
use emscripten_memfswasm_wra.Memory.Entries.Laws.{find-insert_child}
use emscripten_memfswasm_wra.Paths.{parse_parent}
use emscripten_memfswasm_wra.Syscalls.Io.Writing.{with_bytes, write_file-memory}
use emscripten_memfswasm_wra.Syscalls.Io.Append.{after_write_end}
use emscripten_memfswasm_wra.Instance.Preload.{PreloadedFile, preload_file, preload_from_js}

module _ (s : Fs) (dir p : FileId) (n : File) (x : Dir) (name : Name) (f : PreloadedFile)
    (linked : IsLinked s dir p n x) (tree : IsTree s) (free : find_entry name x.entries ≡ none)
    (unmounted : find_cached name x.dcache ≡ none)
    (parsed : parse_parent f.path_name at_fdcwd s ≡ done (dir, name) s) where
  abbrev c : FileId
  c = s.next_file

  abbrev empty_body : Body
  empty_body = data_file (memory_file [])

  abbrev t : Fs
  t = after_insert s dir n x empty_body (bit_or f.mode s_ifreg) name

  abbrev new : File
  new = created s dir empty_body (bit_or f.mode s_ifreg) n.backend

  abbrev filled : File
  filled = record new { body = data_file (memory_file f.bytes) }

  abbrev x1 : Dir
  x1 = record x { entries = insert_child name c x.entries }

  abbrev n1 : File
  n1 = record n { body = directory x1; mtime = s.host.date_now (s.calls + 1) }

  t-IsTree : IsTree t
  t-IsTree =
      after_insert-IsTree s dir p n x empty_body (bit_or f.mode s_ifreg) name linked tree free
        (λ y e. cc)

  other : dir ≢ c
  other = old_dir s dir p n x empty_body (bit_or f.mode s_ifreg) name linked tree free (λ y e. cc)

  new_there : t.files c ≡ some new
  new_there = ground (arith, other)

  -- A file to preload whose path leads to a linked directory and a name that is free there, also in
  -- the cache, is made, and holds the bytes of the embedder, however many fit into a vector. The tree
  -- keeps its shape, and the directory finds the file under its name.
  pub preload_file-IsTree :
      length f.bytes ≤ max_size
      → (u : Fs) × (preload_file f s ≡ done tt u)
        × IsTree u
        × (look_up dir name u ≡ done (some s.next_file) u)
        × (u.files s.next_file ≡ some filled)
  unfolding preload_file preload_from_js insert_data_file create_file
  preload_file-IsTree fits =
      let made = insert_with-eq s dir p n x empty_body (bit_or f.mode s_ifreg) name linked other in
      let w =
        write_file-memory t c new [] f.bytes 0 (new_there, refl) (omega arith) (omega arith) in
      let e = after_write_end f.bytes [] in
      let u = with_bytes t c new f.bytes in
      (
        u,
        ground (arith, parsed, made, w, e),
        set_data-IsTree t c new filled (memory_file f.bytes) t-IsTree new_there refl refl,
        look_up-child u dir p n1 x1 name
            (record { here = ground (arith, other); body = refl; parent = linked.parent }) unmounted
            c filled
            (find-insert_child name name s.next_file x.entries free ∙ rw (name_eq_refl name))
            (ground arith) refl,
        ground arith,
      )
