-- ===== src/Tests/Tree.antt =====
-- Directories, paths and the exports over them.
use emscripten_memfswasm_wra.Base.{
  ℕ, ◌^◌, ◌<◌, ◌≡◌, ◌≢◌, refl, sym, ap, ◌∙◌, Bool-cases, inl, inr, true, Option, none, some, [],
  ◌==◌, arith,
}
use emscripten_memfswasm_wra.Base.Names.{name_eq, codes}
use emscripten_memfswasm_wra.Posix.{enoent, ebadf, at_fdcwd, has}
use emscripten_memfswasm_wra.Memory.Entries.{insert_cached, find_entry, find_cached, insert_child}
use emscripten_memfswasm_wra.Store.{
  Fs, File, Dir, memory_file, data_file, directory, done, fail, out_of_fuel, load, load_open,
  set_parent, store, update, get_parent,
}
use emscripten_memfswasm_wra.Files.{new_file}
use emscripten_memfswasm_wra.Directory.{
  insert_with, look_up, remove_child, get_child, load_dir, cache_child, store_dir, try_insert,
  update_cache,
}
use emscripten_memfswasm_wra.Directory.Lookup.{IsLinked}
use emscripten_memfswasm_wra.Directory.Tree.{
  HasEntries, IsTree, some-same, directory-same, no_entry_in_nil,
}
use emscripten_memfswasm_wra.Directory.Tree.Inserted.{insert_with-IsTree, after_insert-IsTree}
use emscripten_memfswasm_wra.Directory.Tree.Removed.{remove_child-IsTree}
use emscripten_memfswasm_wra.Directory.Insert.{after_insert, created}
use emscripten_memfswasm_wra.Table.{get_entry}
use emscripten_memfswasm_wra.Paths.{
  get_open, parse_file, parse_parent, follow, get_base_dir, parent_with, relative_parent_with,
  strip_trailing, walk, segments, cut, child_with, file_with,
}
use emscripten_memfswasm_wra.Paths.Fuel.{parse_stops}
use emscripten_memfswasm_wra.Paths.Resolved.{IsResolved, parse_file-IsResolved}
use emscripten_memfswasm_wra.Syscalls.Open.{openat, do_open, open_new, perm_write}
use emscripten_memfswasm_wra.Wasi.{path_open}
use emscripten_memfswasm_wra.Wasi.Errors.{path_open_failed}
use emscripten_memfswasm_wra.Tests.{small, fresh, file_of, no_entries, with_a, three}

abbrev pub root_file : File
root_file = file_of (directory no_entries) (some 0)

pub fresh-IsLinked : IsLinked fresh 0 0 root_file no_entries
fresh-IsLinked = record { here = refl; body = refl; parent = refl }

fresh_entries : (d : ℕ) (x : Dir) → HasEntries fresh d x → x.entries ≡ []
fresh_entries d x (n, here, is_dir) = elim (Bool-cases (d == 0)) [
  | inl q ↦
      let e : ◌≡◌ {A = Option File} (some root_file) (some n) = rw q at here in
      sym (
        ap (λ z. z.entries)
          (directory-same no_entries x (ap (λ z. z.body) (some-same root_file n e) ∙ is_dir)))
  | inr q ↦ let e : ◌≡◌ {A = Option File} none (some n) = rw q at here in cc
]

pub fresh-IsTree : IsTree fresh
fresh-IsTree = record {
  unused = λ f h. ground arith;
  names = λ d x h. rw (fresh_entries d x h) tt;
  single = λ d x c a b h u v. absurd (no_entry_in_nil a c (rw (fresh_entries d x h) at u));
  children = λ d x c a h u. absurd (no_entry_in_nil a c (rw (fresh_entries d x h) at u));
}

pub free_a : find_entry (codes "a") no_entries.entries ≡ none
unfolding find_entry
free_a = refl

pub uncached_a : find_cached (codes "a") no_entries.dcache ≡ none
unfolding find_cached
uncached_a = refl

insert_with-IsTree_example :
    (u : Fs) × (insert_with
        (λ b. new_file (data_file (memory_file [])) 0o644 b true)
        0
        (codes "a")
        fresh
      ≡ done (some 1) u)
    × IsTree u
    × (look_up 0 (codes "a") u ≡ done (some 1) u)
insert_with-IsTree_example =
    insert_with-IsTree fresh 0 0 root_file no_entries (data_file (memory_file [])) 0o644 (codes "a")
      fresh-IsLinked fresh-IsTree free_a (λ y e. cc) uncached_a

-- The root with one file.
abbrev pub grown : Fs
grown = after_insert fresh 0 root_file no_entries (data_file (memory_file [])) 0o644 (codes "a")

pub grown-IsTree : IsTree grown
grown-IsTree =
    after_insert-IsTree fresh 0 0 root_file no_entries (data_file (memory_file [])) 0o644
      (codes "a") fresh-IsLinked fresh-IsTree free_a (λ y e. cc)

abbrev pub grown_root : File
grown_root = record root_file { body = directory with_a; mtime = 1001 }

abbrev pub grown_file : File
grown_file = created fresh 0 (data_file (memory_file [])) 0o644 1

pub grown-IsLinked : IsLinked grown 0 0 grown_root with_a
unfolding insert_child
grown-IsLinked = record { here = refl; body = refl; parent = refl }

pub found_a : find_entry (codes "a") with_a.entries ≡ some 1
unfolding find_entry name_eq
found_a = refl

remove_child-IsTree_example :
    (u : Fs) × (remove_child 0 (codes "a") grown ≡ done tt u)
    × IsTree u
    × (look_up 0 (codes "a") u ≡ done none u)
    × (u.files 1 ≡ some (record grown_file { parent = none }))
remove_child-IsTree_example =
    remove_child-IsTree grown 0 0 grown_root with_a 1 grown_file (codes "a") grown-IsLinked
      grown-IsTree found_a refl uncached_a (omega arith)

parse_stops_example :
    (parse_file (codes "/a/../a") at_fdcwd true small ≢ out_of_fuel)
    × (parse_parent (codes "/a/../a") at_fdcwd small ≢ out_of_fuel)
parse_stops_example = parse_stops (codes "/a/../a") at_fdcwd true small

-- A lookup sets the parent of the child again.
abbrev looked_up : Fs
looked_up = record small {
  files = update small.files 1 (some (file_of (data_file (memory_file three)) (some 0)));
}

parse_small : parse_file (codes "/a") at_fdcwd true small ≡ done 1 looked_up
unfolding parse_file get_base_dir parent_with relative_parent_with strip_trailing walk segments cut
    child_with file_with follow get_child get_parent name_eq look_up load_dir find_cached find_entry
    cache_child store_dir try_insert update_cache insert_cached load set_parent store get_entry
    load_open
parse_small = refl

parse_file-IsResolved_example : IsResolved looked_up 1
parse_file-IsResolved_example =
    parse_file-IsResolved (codes "/a") at_fdcwd small looked_up 1 parse_small

pub writable : has 0o777 perm_write ≡ true
unfolding has
writable = refl

open_missing : openat at_fdcwd (codes "/b") 0 0 small ≡ fail enoent small
unfolding openat parse_parent get_base_dir parent_with relative_parent_with strip_trailing walk
    segments cut do_open open_new get_child get_parent name_eq look_up load_dir find_cached
    find_entry load has
open_missing = refl

path_open_failed_example :
    (word : ℕ) × (path_open at_fdcwd 0 (codes "/b") 0 small ≡ done (0, word) small)
    × (2 ^ 31 < word)
    × (word < 2 ^ 32)
    × (get_open word small ≡ fail ebadf small)
path_open_failed_example =
    path_open_failed at_fdcwd 0 (codes "/b") 0 enoent small small open_missing (omega arith)
      (omega arith) (omega arith)
