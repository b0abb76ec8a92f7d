-- ===== src/Tests/Unlinking.antt =====
-- Unlinking files and removing directories.
use emscripten_memfswasm_wra.Base.{◌≡◌, refl, sym, ap, false, none, some, [], ◌∷◌, arith}
use emscripten_memfswasm_wra.Base.Names.{codes}
use emscripten_memfswasm_wra.Posix.{enotempty, at_fdcwd, at_removedir}
use emscripten_memfswasm_wra.Memory.Entries.{insert_child}
use emscripten_memfswasm_wra.Store.{Fs, File, Dir, memory_file, data_file, directory, done, fail}
use emscripten_memfswasm_wra.Directory.{look_up}
use emscripten_memfswasm_wra.Directory.Insert.{after_insert, created}
use emscripten_memfswasm_wra.Directory.Lookup.{IsLinked}
use emscripten_memfswasm_wra.Directory.Tree.{IsTree, directory-same}
use emscripten_memfswasm_wra.Directory.Tree.Inserted.{after_insert-IsTree}
use emscripten_memfswasm_wra.Paths.{
  parse_parent, get_base_dir, parent_with, relative_parent_with, strip_trailing, walk, segments,
  cut,
}
use emscripten_memfswasm_wra.Syscalls.Trees.{unlinkat, ends_slash_dot}
use emscripten_memfswasm_wra.Syscalls.Trees.Unlink.{unlink_removes, rmdir_nonempty}
use emscripten_memfswasm_wra.Tests.{fresh, no_entries, with_a}
use emscripten_memfswasm_wra.Tests.Making.{a-IsPlain}
use emscripten_memfswasm_wra.Tests.Tree.{
  root_file, fresh-IsLinked, fresh-IsTree, free_a, uncached_a, writable, grown, grown_root,
  grown_file, grown-IsLinked, grown-IsTree, found_a,
}

parse_grown : parse_parent (codes "/a") at_fdcwd grown ≡ done (0, codes "a") grown
unfolding parse_parent get_base_dir parent_with relative_parent_with strip_trailing walk segments
    cut
parse_grown = refl

unlink_removes_example :
    (u : Fs) × (unlinkat at_fdcwd (codes "/a") 0 grown ≡ done tt u)
    × IsTree u
    × (look_up 0 (codes "a") u ≡ done none u)
    × (u.files 1 ≡ some (record grown_file { parent = none }))
unlink_removes_example =
    unlink_removes grown 0 0 grown_root with_a (codes "a") (codes "/a") at_fdcwd grown-IsLinked
      grown-IsTree uncached_a a-IsPlain parse_grown 1 grown_file found_a refl (omega arith)
      (memory_file []) refl (omega arith) writable

-- The root with a directory `a`.
abbrev pub made : Fs
made = after_insert fresh 0 root_file no_entries (directory no_entries) 0o777 (codes "a")

pub made-IsTree : IsTree made
unfolding insert_child
made-IsTree =
    after_insert-IsTree fresh 0 0 root_file no_entries (directory no_entries) 0o777 (codes "a")
      fresh-IsLinked fresh-IsTree free_a
      (λ y e. ap (λ z. z.entries) (sym (directory-same no_entries y e)))

abbrev pub made_dir : File
made_dir = created fresh 0 (directory no_entries) 0o777 1

pub made-IsLinked : IsLinked made 1 0 made_dir no_entries
made-IsLinked = record { here = refl; body = refl; parent = refl }

-- The root with a directory `a` that has a file `a`.
abbrev nested : Fs
nested = after_insert made 1 made_dir no_entries (data_file (memory_file [])) 0o644 (codes "a")

nested-IsTree : IsTree nested
nested-IsTree =
    after_insert-IsTree made 1 0 made_dir no_entries (data_file (memory_file [])) 0o644 (codes "a")
      made-IsLinked made-IsTree free_a (λ y e. cc)

abbrev with_inner : Dir
with_inner = record { entries = record { name = codes "a"; child = 2 } ∷ []; dcache = [] }

abbrev inner_dir : File
inner_dir = record made_dir { body = directory with_inner; mtime = 1003 }

nested-IsLinked : IsLinked nested 0 0 grown_root with_a
unfolding insert_child
nested-IsLinked = record { here = refl; body = refl; parent = refl }

nested_child : nested.files 1 ≡ some inner_dir
unfolding insert_child
nested_child = refl

parse_nested : parse_parent (codes "/a") at_fdcwd nested ≡ done (0, codes "a") nested
unfolding parse_parent get_base_dir parent_with relative_parent_with strip_trailing walk segments
    cut
parse_nested = refl

no_dot : ends_slash_dot (strip_trailing (codes "/a")) ≡ false
unfolding ends_slash_dot strip_trailing
no_dot = refl

rmdir_nonempty_example : unlinkat at_fdcwd (codes "/a") at_removedir nested ≡ fail enotempty nested
rmdir_nonempty_example =
    rmdir_nonempty nested 0 0 grown_root with_a (codes "a") (codes "/a") at_fdcwd nested-IsLinked
      nested-IsTree uncached_a a-IsPlain parse_nested 1 inner_dir found_a nested_child (omega arith)
      with_inner refl (omega arith) no_dot
