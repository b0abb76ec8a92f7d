-- ===== src/Tests/Cwd.antt =====
-- The working directory.
use emscripten_memfswasm_wra.Base.{◌≡◌, refl, true, false, [], ◌∷◌, arith}
use emscripten_memfswasm_wra.Base.Names.{codes, name_eq}
use emscripten_memfswasm_wra.Posix.{at_fdcwd}
use emscripten_memfswasm_wra.Memory.Entries.{insert_child}
use emscripten_memfswasm_wra.Store.{Fs, done}
use emscripten_memfswasm_wra.Directory.Lookup.{IsLinked}
use emscripten_memfswasm_wra.Directory.Tree.{IsTree}
use emscripten_memfswasm_wra.Directory.Tree.Down.{IsStep, Down, arrived, into}
use emscripten_memfswasm_wra.Paths.{parse_file}
use emscripten_memfswasm_wra.Paths.Segments.{Components}
use emscripten_memfswasm_wra.Syscalls.Listing.{getcwd}
use emscripten_memfswasm_wra.Syscalls.Listing.Cwd.{getcwd-parse_file}
use emscripten_memfswasm_wra.Tests.{no_entries, with_a}
use emscripten_memfswasm_wra.Tests.Tree.{grown_root, found_a, uncached_a}
use emscripten_memfswasm_wra.Tests.Unlinking.{made, made_dir, made-IsTree}

-- In the directory `a` of the root.
abbrev inside_a : Fs
inside_a = record made { cwd = 1 }

inside_a-IsTree : IsTree inside_a
inside_a-IsTree = record {
  unused = made-IsTree.unused;
  names = made-IsTree.names;
  single = made-IsTree.single;
  children = made-IsTree.children;
}

root-IsLinked : IsLinked inside_a 0 0 grown_root with_a
unfolding insert_child
root-IsLinked = record { here = refl; body = refl; parent = refl }

a-IsLinked : IsLinked inside_a 1 0 made_dir no_entries
a-IsLinked = record { here = refl; body = refl; parent = refl }

a-IsStep : IsStep inside_a 0 (codes "a") 1
unfolding name_eq
a-IsStep = record {
  up = 0;
  record_of = grown_root;
  inside = with_a;
  linked = root-IsLinked;
  entry = found_a;
  uncached = uncached_a;
  not_dot = refl;
  not_dots = refl;
  not_root = omega arith;
}

way-Down : Down inside_a 0 (codes "a" ∷ []) 1
way-Down = into 0 1 1 (codes "a") [] a-IsStep (arrived 1 0 made_dir no_entries a-IsLinked)

a-Components : Components (codes "a" ∷ [])
a-Components = ((λ e. cc), (refl, tt), tt)

getcwd-parse_file_example :
    (getcwd false 64 inside_a ≡ done (codes "/a", 3) inside_a)
    × (parse_file (codes "/a") at_fdcwd true inside_a ≡ done 1 inside_a)
getcwd-parse_file_example =
    getcwd-parse_file inside_a inside_a-IsTree (codes "a" ∷ []) 64 way-Down a-Components
      (omega arith)
