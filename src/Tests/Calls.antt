-- ===== src/Tests/Calls.antt =====
-- Renaming, mapping, preloading, and the calls from JavaScript.
use emscripten_memfswasm_wra.Base.{◌≡◌, refl, true, none, some, [], ◌∷◌, arith, length, max, bit_or}
use emscripten_memfswasm_wra.Base.Names.{codes, name_eq}
use emscripten_memfswasm_wra.Posix.{at_fdcwd, has, s_ifreg}
use emscripten_memfswasm_wra.Memory.Entries.{find_entry, find_cached, find_cached_file}
use emscripten_memfswasm_wra.Memory.DataFile.Laws.{after_write}
use emscripten_memfswasm_wra.Store.{Fs, memory_file, data_file, done}
use emscripten_memfswasm_wra.Directory.{look_up}
use emscripten_memfswasm_wra.Directory.Insert.{created}
use emscripten_memfswasm_wra.Directory.Tree.{IsTree}
use emscripten_memfswasm_wra.Directory.Tree.Down.{arrived}
use emscripten_memfswasm_wra.Directory.Tree.Rooted.{Rooted}
use emscripten_memfswasm_wra.Paths.{
  parse_parent, get_base_dir, parent_with, relative_parent_with, strip_trailing, walk, segments,
  cut,
}
use emscripten_memfswasm_wra.Syscalls.Io.Writing.{with_bytes}
use emscripten_memfswasm_wra.Syscalls.Open.Mkdir.{IsPlain}
use emscripten_memfswasm_wra.Syscalls.Trees.{renameat}
use emscripten_memfswasm_wra.Syscalls.Trees.Rename.{rename_moves}
use emscripten_memfswasm_wra.Syscalls.Mapping.{mmap, msync}
use emscripten_memfswasm_wra.Syscalls.Mapping.Shared.{IsShared, mmap-msync}
use emscripten_memfswasm_wra.Instance.Preload.{PreloadedFile, preload_file}
use emscripten_memfswasm_wra.Instance.Preload.Files.{preload_file-IsTree}
use emscripten_memfswasm_wra.JsApi.{write_whole}
use emscripten_memfswasm_wra.JsApi.WriteFile.{write_whole_appends}
use emscripten_memfswasm_wra.Tests.{fresh, small, open_a, three, no_entries, with_a}
use emscripten_memfswasm_wra.Tests.Descriptors.{file_a, small-IsOpen}
use emscripten_memfswasm_wra.Tests.Making.{a-IsPlain}
use emscripten_memfswasm_wra.Tests.Tree.{
  root_file, fresh-IsLinked, fresh-IsTree, free_a, uncached_a, writable, grown, grown_root,
  grown_file, grown-IsLinked, grown-IsTree, found_a,
}

parse_a : parse_parent (codes "/a") at_fdcwd grown ≡ done (0, codes "a") grown
unfolding parse_parent get_base_dir parent_with relative_parent_with strip_trailing walk segments
    cut
parse_a = refl

parse_b : parse_parent (codes "/b") at_fdcwd grown ≡ done (0, codes "b") grown
unfolding parse_parent get_base_dir parent_with relative_parent_with strip_trailing walk segments
    cut
parse_b = refl

b-IsPlain : IsPlain (codes "b")
unfolding name_eq
b-IsPlain = (omega arith, refl, refl)

pub free_b : find_entry (codes "b") with_a.entries ≡ none
unfolding find_entry name_eq
free_b = refl

uncached_b : find_cached (codes "b") with_a.dcache ≡ none
unfolding find_cached
uncached_b = refl

uncached_file : find_cached_file 1 with_a.dcache ≡ none
unfolding find_cached_file
uncached_file = refl

rename_moves_example :
    (t : Fs) × (renameat at_fdcwd (codes "/a") at_fdcwd (codes "/b") grown ≡ done tt t)
    × IsTree t
    × (look_up 0 (codes "b") t ≡ done (some 1) t)
    × Rooted t 1
rename_moves_example =
    rename_moves grown 0 0 0 0 1 grown_root grown_root grown_file with_a with_a (codes "b")
      (codes "a") grown-IsTree grown-IsLinked grown-IsLinked refl found_a free_b uncached_file
      uncached_a uncached_b (omega arith) (omega arith) (codes "/a") (codes "/b") at_fdcwd at_fdcwd
      parse_a parse_b a-IsPlain b-IsPlain writable writable refl []
      (arrived 0 0 grown_root with_a grown-IsLinked) (omega arith, tt)

write_whole_appends_example :
    (write_whole (codes "/a") three grown ≡ done 0 (with_bytes grown 1 grown_file three))
    × IsTree (with_bytes grown 1 grown_file three)
write_whole_appends_example =
    write_whole_appends grown 0 0 grown_root with_a (codes "a") (codes "/a") three grown-IsLinked
      grown-IsTree uncached_a a-IsPlain parse_a 1 grown_file [] found_a refl refl (omega arith)

both-IsShared : IsShared 3 1
unfolding has
both-IsShared = (refl, refl, refl)

mmap-msync_example :
    (t : Fs) × (msync (7 ∷ 8 ∷ []) 3 1 0 2 small ≡ done tt t)
    × (mmap true 2 3 1 0 2 t ≡ done (7 ∷ 8 ∷ []) t)
    × (length (after_write (7 ∷ 8 ∷ []) 2 three) ≡ max 3 4)
    × (t.files 1
        ≡ some (record file_a {
          body = data_file (memory_file (after_write (7 ∷ 8 ∷ []) 2 three));
          mtime = 1000;
        }))
mmap-msync_example =
    mmap-msync small 0 0 open_a file_a three 3 1 2 small-IsOpen refl both-IsShared (omega arith)
      (7 ∷ 8 ∷ []) (omega arith) (omega arith)

abbrev to_preload : PreloadedFile
to_preload = record { path_name = codes "/a"; mode = 0o644; bytes = three }

parse_fresh : parse_parent (codes "/a") at_fdcwd fresh ≡ done (0, codes "a") fresh
unfolding parse_parent get_base_dir parent_with relative_parent_with strip_trailing walk segments
    cut
parse_fresh = refl

preload_file-IsTree_example :
    (u : Fs) × (preload_file to_preload fresh ≡ done tt u)
    × IsTree u
    × (look_up 0 (codes "a") u ≡ done (some 1) u)
    × (u.files 1
        ≡ some (record (created fresh 0 (data_file (memory_file [])) (bit_or 0o644 s_ifreg) 1) {
          body = data_file (memory_file three);
        }))
preload_file-IsTree_example =
    preload_file-IsTree fresh 0 0 root_file no_entries (codes "a") to_preload fresh-IsLinked
      fresh-IsTree free_a uncached_a parse_fresh (omega arith)
