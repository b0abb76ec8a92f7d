-- ===== src/Tests/Dots.antt =====
-- Renaming to `.`.
use emscripten_memfswasm_wra.Base.{◌≡◌, refl, sym, ap, none, some, [], ◌∷◌, arith}
use emscripten_memfswasm_wra.Base.Names.{codes, name_eq}
use emscripten_memfswasm_wra.Posix.{at_fdcwd}
use emscripten_memfswasm_wra.Memory.Entries.{
  find_entry, find_cached, find_cached_file, insert_child,
}
use emscripten_memfswasm_wra.Store.{
  Fs, File, Dir, directory, done, load, store, get_parent, set_parent,
}
use emscripten_memfswasm_wra.Directory.{look_up, get_child, load_dir, cache_child, update_cache}
use emscripten_memfswasm_wra.Directory.Insert.{after_insert, created}
use emscripten_memfswasm_wra.Directory.Lookup.{IsLinked, update_same}
use emscripten_memfswasm_wra.Directory.Tree.{IsTree, directory-same}
use emscripten_memfswasm_wra.Directory.Tree.Inserted.{after_insert-IsTree}
use emscripten_memfswasm_wra.Directory.Tree.Down.{IsStep, arrived, into}
use emscripten_memfswasm_wra.Paths.{
  parse_parent, get_base_dir, parent_with, relative_parent_with, strip_trailing, walk, segments,
  cut, child_with, follow,
}
use emscripten_memfswasm_wra.Syscalls.Trees.{renameat}
use emscripten_memfswasm_wra.Syscalls.Trees.Dot.{rename_to_dot}
use emscripten_memfswasm_wra.Tests.{no_entries, with_a}
use emscripten_memfswasm_wra.Tests.Making.{a-IsPlain}
use emscripten_memfswasm_wra.Tests.Tree.{grown_root, writable}
use emscripten_memfswasm_wra.Tests.Calls.{free_b}
use emscripten_memfswasm_wra.Tests.Unlinking.{made, made_dir, made-IsTree}

-- The root with the empty directories `a` and `b`.
abbrev pair : Fs
pair = after_insert made 0 grown_root with_a (directory no_entries) 0o777 (codes "b")

made_root-IsLinked : IsLinked made 0 0 grown_root with_a
unfolding insert_child
made_root-IsLinked = record { here = refl; body = refl; parent = refl }

pair-IsTree : IsTree pair
pair-IsTree =
    after_insert-IsTree made 0 0 grown_root with_a (directory no_entries) 0o777 (codes "b")
      made_root-IsLinked made-IsTree free_b
      (λ y e. ap (λ z. z.entries) (sym (directory-same no_entries y e)))

abbrev both : Dir
both = record {
  entries = record { name = codes "a"; child = 1 } ∷ record { name = codes "b"; child = 2 } ∷ [];
  dcache = [];
}

abbrev pair_root : File
pair_root = record grown_root { body = directory both; mtime = 1003 }

abbrev dir_b : File
dir_b = created made 0 (directory no_entries) 0o777 1

root-IsLinked : IsLinked pair 0 0 pair_root both
unfolding insert_child
root-IsLinked = record { here = refl; body = refl; parent = refl }

b-IsLinked : IsLinked pair 2 0 dir_b no_entries
b-IsLinked = record { here = refl; body = refl; parent = refl }

entry_a : find_entry (codes "a") both.entries ≡ some 1
unfolding find_entry name_eq
entry_a = refl

uncached : find_cached_file 1 both.dcache ≡ none
unfolding find_cached_file
uncached = refl

uncached_name : find_cached (codes "a") both.dcache ≡ none
unfolding find_cached
uncached_name = refl

b-IsStep : IsStep pair 0 (codes "b") 2
unfolding name_eq find_entry find_cached
b-IsStep = record {
  up = 0;
  record_of = pair_root;
  inside = both;
  linked = root-IsLinked;
  entry = refl;
  uncached = refl;
  not_dot = refl;
  not_dots = refl;
  not_root = omega arith;
}

parse_a : parse_parent (codes "/a") at_fdcwd pair ≡ done (0, codes "a") pair
unfolding parse_parent get_base_dir parent_with relative_parent_with strip_trailing walk segments
    cut
parse_a = refl

parse_dot : parse_parent (codes "/b/.") at_fdcwd pair ≡ done (2, codes ".") pair
unfolding parse_parent get_base_dir parent_with relative_parent_with strip_trailing walk segments
    cut child_with follow get_child get_parent load look_up load_dir find_cached find_entry name_eq
    cache_child update_cache set_parent store insert_child
parse_dot =
    ap (λ f. done (2, codes ".") (record pair { files = f }))
      (update_same pair.files 2 (some dir_b) refl)

rename_to_dot_example :
    (t : Fs) × (renameat at_fdcwd (codes "/a") at_fdcwd (codes "/b/.") pair ≡ done tt t)
    × (look_up 2 (codes ".") t ≡ done (some 1) t)
    × (get_child 2 (codes ".") t ≡ done (some 2) t)
rename_to_dot_example =
    rename_to_dot pair 2 0 0 0 1 dir_b pair_root made_dir no_entries both no_entries (codes "a")
      pair-IsTree b-IsLinked root-IsLinked refl refl entry_a refl refl uncached uncached_name
      (omega arith) (omega arith) (omega arith) (codes "/a") (codes "/b/.") at_fdcwd at_fdcwd
      parse_a parse_dot a-IsPlain writable writable refl (codes "b" ∷ [])
      (into 0 2 2 (codes "b") [] b-IsStep (arrived 2 0 dir_b no_entries b-IsLinked))
      (omega arith, (omega arith, tt))
