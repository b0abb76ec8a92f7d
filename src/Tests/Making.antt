-- ===== src/Tests/Making.antt =====
-- Making files and directories.
use emscripten_memfswasm_wra.Posix.{eexist, o_creat, o_excl, o_rdwr, has}
use emscripten_memfswasm_wra.Base.{ℕ, bit_or, ◌≡◌, refl, some, [], arith}
use emscripten_memfswasm_wra.Base.Names.{name_eq, codes}
use emscripten_memfswasm_wra.Store.{File, Fs, value, done, fail}
use emscripten_memfswasm_wra.Directory.{look_up}
use emscripten_memfswasm_wra.Directory.Tree.{IsTree}
use emscripten_memfswasm_wra.Syscalls.Open.{do_mkdir, do_open, nothing, fd, null_backend}
use emscripten_memfswasm_wra.Syscalls.Open.Mkdir.{IsPlain, mkdir_existing, mkdir_creates}
use emscripten_memfswasm_wra.Syscalls.Open.Create.{Creates, create_exclusive}
use emscripten_memfswasm_wra.Table.{free_slot}
use emscripten_memfswasm_wra.Syscalls.Io.RoundTrip.{IsOpen}
use emscripten_memfswasm_wra.Tests.{fresh, no_entries, with_a}
use emscripten_memfswasm_wra.Tests.Tree.{
  root_file, fresh-IsLinked, fresh-IsTree, free_a, uncached_a, writable, grown, grown_root,
  grown-IsLinked, grown-IsTree, found_a,
}

pub a-IsPlain : IsPlain (codes "a")
unfolding name_eq
a-IsPlain = (omega arith, refl, refl)

mkdir_creates_example :
    (u : Fs) × (do_mkdir (value (0, codes "a")) 0o755 null_backend fresh ≡ done tt u)
    × IsTree u
    × (look_up 0 (codes "a") u ≡ done (some 1) u)
mkdir_creates_example =
    mkdir_creates fresh 0 0 root_file no_entries (codes "a") 0o755 fresh-IsLinked fresh-IsTree
      uncached_a a-IsPlain free_a writable

mkdir_existing_example :
    do_mkdir (value (0, codes "a")) 0o755 null_backend grown ≡ fail eexist grown
mkdir_existing_example =
    mkdir_existing grown 0 0 grown_root with_a (codes "a") 0o755 grown-IsLinked grown-IsTree
      uncached_a a-IsPlain 1 found_a

abbrev create_flags : ℕ
create_flags = bit_or o_creat (bit_or o_excl o_rdwr)

create_flags-Creates : Creates create_flags
unfolding has
create_flags-Creates = record { creat = refl; excl = refl; access = refl }

create_exclusive_example :
    ((t : Fs) × (do_open (value (0, codes "a")) create_flags 0o644 null_backend nothing fresh
        ≡ done 0 t)
      × IsTree t
      × (do_open (value (0, codes "a")) create_flags 0o644 null_backend nothing t ≡ fail eexist t))
    × ((t : Fs) × (m : File) × (do_open
            (value (0, codes "a"))
            create_flags
            0o644
            null_backend
            fd
            fresh
          ≡ done (free_slot fresh.table) t)
        × IsTree t
        × IsOpen t
            (free_slot fresh.table)
            fresh.next_open
            (record {
              file = fresh.next_file;
              position = 0;
              flags = create_flags;
              uses = 1;
              dirents = [];
            })
            m
            []
        × (do_open (value (0, codes "a")) create_flags 0o644 null_backend fd t ≡ fail eexist t))
create_exclusive_example =
    create_exclusive fresh 0 0 root_file no_entries (codes "a") create_flags 0o644 null_backend
      fresh-IsLinked fresh-IsTree uncached_a a-IsPlain free_a create_flags-Creates refl
