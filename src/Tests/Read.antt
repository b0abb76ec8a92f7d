-- ===== src/Tests/Read.antt =====
-- Reading a file whole.
use emscripten_memfswasm_wra.Base.{◌∙◌, ◌≡◌, refl, true, false, none, some, [], ◌∷◌, arith}
use emscripten_memfswasm_wra.Base.Names.{codes, name_eq}
use emscripten_memfswasm_wra.Posix.{at_fdcwd, has}
use emscripten_memfswasm_wra.Memory.Entries.{find_cached}
use emscripten_memfswasm_wra.Store.{Fs, directory, done, pure, attempt, ◌>>=◌}
use emscripten_memfswasm_wra.Directory.{get_child}
use emscripten_memfswasm_wra.Directory.Lookup.{IsLinked, look_up-child, get_child-look_up}
use emscripten_memfswasm_wra.Paths.{
  parse_parent, get_base_dir, parent_with, relative_parent_with, strip_trailing, walk, segments,
  cut,
}
use emscripten_memfswasm_wra.Syscalls.Io.{fd_close, fd_pread}
use emscripten_memfswasm_wra.Syscalls.Metadata.{stat64}
use emscripten_memfswasm_wra.Syscalls.Open.{openat, perm_read}
use emscripten_memfswasm_wra.Table.{slot, free_slot}
use emscripten_memfswasm_wra.JsApi.ReadFile.{Libc, read_whole}
use emscripten_memfswasm_wra.JsApi.ReadFile.Contents.{IsSystem, first_bytes, read_whole_contents}
use emscripten_memfswasm_wra.Tests.{small, three, file_of, with_a}
use emscripten_memfswasm_wra.Tests.Descriptors.{file_a}
use emscripten_memfswasm_wra.Tests.Making.{a-IsPlain}
use emscripten_memfswasm_wra.Tests.Tree.{found_a}

abbrev calls : Libc
calls = record {
  stat = λ path. attempt (stat64 path);
  open_path = λ path flags. attempt (openat at_fdcwd path flags 0);
  pread = λ fd count offset. do
    r ← attempt (fd_pread fd (record { is_null = false; len = count } ∷ []) offset)
    pure (first_bytes r);
  close = λ fd. attempt (fd_close fd);
}

calls-IsSystem : IsSystem calls
calls-IsSystem = record {
  stat_eq = λ path. refl;
  open_eq = λ path flags. refl;
  pread_eq = λ fd count offset. refl;
  close_eq = λ fd. refl;
}

parse_small_a : parse_parent (codes "/a") at_fdcwd small ≡ done (0, codes "a") small
unfolding parse_parent get_base_dir parent_with relative_parent_with strip_trailing walk segments
    cut
parse_small_a = refl

small-IsLinked : IsLinked small 0 0 (file_of (directory with_a) (some 0)) with_a
small-IsLinked = record { here = refl; body = refl; parent = refl }

small-uncached : find_cached (codes "a") with_a.dcache ≡ none
unfolding find_cached
small-uncached = refl

found_small_a : get_child 0 (codes "a") small ≡ done (some 1) small
unfolding name_eq
found_small_a =
    get_child-look_up small 0 0 _ with_a (codes "a") small-IsLinked small-uncached refl refl
    ∙ look_up-child small 0 0 _ with_a (codes "a") small-IsLinked small-uncached 1 file_a found_a
        refl refl

may_read : has 0o777 perm_read ≡ true
unfolding has
may_read = refl

read_whole_contents_example :
    (u : Fs) × (read_whole calls (codes "/a") small ≡ done (3, three) u)
    × (u.files ≡ small.files)
    × (slot u.table 1 ≡ none)
unfolding free_slot
read_whole_contents_example =
    read_whole_contents small 0 1 file_a three (codes "a") (codes "/a") a-IsPlain parse_small_a
      found_small_a refl refl may_read (omega arith) calls calls-IsSystem
