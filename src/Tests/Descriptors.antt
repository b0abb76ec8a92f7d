-- ===== src/Tests/Descriptors.antt =====
-- Descriptors, transfers and the exports.
use emscripten_memfswasm_wra.Base.{
  ◌*◌, length, ◌<◌, ℕ, ◌+◌, ◌-◌, ◌%◌, ◌^◌, ◌≤◌, ◌≡◌, ◌≢◌, ◌⊎◌, refl, true, false, none, some, List,
  [], ◌∷◌, ◌++◌, ◌==◌, arith,
}
use emscripten_memfswasm_wra.Base.Names.{Name, codes}
use emscripten_memfswasm_wra.Posix.{o_append, has}
use emscripten_memfswasm_wra.Memory.DataFile.{Bytes}
use emscripten_memfswasm_wra.Memory.DataFile.Laws.{after_write}
use emscripten_memfswasm_wra.Store
use emscripten_memfswasm_wra.Store.{
  Fs, File, OpenFile, memory_file, data_file, data_file_kind, directory, done, fail, fault, load,
  load_open, store_open, throw_if,
}
use emscripten_memfswasm_wra.Table.{
  slot, grow, retain, release, set_entry, get_entry, add_entry, free_slot,
}
use emscripten_memfswasm_wra.Table.Uses.{references, set_entry-uses}
use emscripten_memfswasm_wra.Paths.{get_open}
use emscripten_memfswasm_wra.Syscalls.Io.{Ciovec, write_loop, fd_write, fd_pwrite, fd_pread}
use emscripten_memfswasm_wra.Syscalls.Io.Writing.{with_bytes, write_loop-gather}
use emscripten_memfswasm_wra.Syscalls.Io.RoundTrip.{IsOpen, pwritten, pread-pwrite}
use emscripten_memfswasm_wra.Syscalls.Io.Append.{append_write}
use emscripten_memfswasm_wra.Memory.DataFile.{overwrite}
use emscripten_memfswasm_wra.Syscalls.Io.Offsets.{negative_transfer}
use emscripten_memfswasm_wra.Syscalls.Descriptors.{dup, dup3}
use emscripten_memfswasm_wra.Syscalls.Descriptors.Sharing.{dup_shares, dup3_shares}
use emscripten_memfswasm_wra.Syscalls.Listing.{Dirent, getdents64}
use emscripten_memfswasm_wra.Syscalls.Listing.Resume.{Lists, getdents64-resume}
use emscripten_memfswasm_wra.Tests.{with_a, small, open_a, three, file_of}

abbrev pub file_a : File
file_a = file_of (data_file (memory_file three)) (some 0)

pub small-IsOpen : IsOpen small 0 0 open_a file_a three
unfolding get_open get_entry
small-IsOpen = record { entry = refl; opened = refl; file = refl; memory = refl }

abbrev buffer : Bytes → Ciovec
buffer bytes = record { is_null = false; bytes = bytes }

pread-pwrite_example :
    (t : Fs) × (fd_pwrite 0 (buffer (7 ∷ []) ∷ buffer (8 ∷ 9 ∷ []) ∷ []) 2 small ≡ done 3 t)
    × (fd_pread 0 (record { is_null = false; len = 3 } ∷ []) 2 t
        ≡ done ((7 ∷ 8 ∷ 9 ∷ []) ∷ [], 3) t)
pread-pwrite_example =
    pread-pwrite small 0 0 open_a file_a three (buffer (7 ∷ [])) (buffer (8 ∷ 9 ∷ []) ∷ []) 2
      small-IsOpen (omega arith) (omega arith) (refl, (refl, tt)) (omega arith)

flag_a : has open_a.flags o_append ≡ true
unfolding has
flag_a = refl

append_write_example :
    (t : Fs) × (fd_write 0 (buffer (7 ∷ []) ∷ buffer (8 ∷ 9 ∷ []) ∷ []) small ≡ done 3 t)
    × (t.files 1
        ≡ some (record file_a {
          body = data_file (memory_file (1 ∷ 2 ∷ 3 ∷ 7 ∷ 8 ∷ 9 ∷ []));
          mtime = 1000;
        }))
    × (t.opens 0 ≡ some (record open_a { position = 6 }))
append_write_example =
    append_write small 0 0 open_a file_a three (buffer (7 ∷ [])) (buffer (8 ∷ 9 ∷ []) ∷ [])
      small-IsOpen refl flag_a (omega arith) (refl, (refl, tt)) (omega arith)

write_loop-gather_example :
    write_loop 1 2 0 (buffer (7 ∷ []) ∷ buffer (8 ∷ 9 ∷ []) ∷ []) small
    ≡ done 3 (with_bytes small 1 file_a (after_write (7 ∷ 8 ∷ 9 ∷ []) 2 three))
write_loop-gather_example =
    write_loop-gather 1 2 0 (buffer (7 ∷ [])) (buffer (8 ∷ 9 ∷ []) ∷ []) small file_a three
      (refl, refl) (omega arith) (omega arith) (refl, (refl, tt))

-- At -2^32 the bytes are written at 0.
negative_transfer_example :
    (((2 ^ 64 - 2 ^ 32) % 2 ^ 32 + 1 ≤ 3)
        × (fd_pwrite 0 (buffer (7 ∷ []) ∷ []) (2 ^ 64 - 2 ^ 32) small
            ≡ done 1
                (pwritten small 1 file_a (overwrite ((2 ^ 64 - 2 ^ 32) % 2 ^ 32) (7 ∷ []) three)))
      ⊎ (3 < (2 ^ 64 - 2 ^ 32) % 2 ^ 32 + 1)
        × (fd_pwrite 0 (buffer (7 ∷ []) ∷ []) (2 ^ 64 - 2 ^ 32) small ≡ fault))
    × (((2 ^ 64 - 2 ^ 32) % 2 ^ 32 + 2 ≤ 3)
          × (fd_pread 0 (record { is_null = false; len = 2 } ∷ []) (2 ^ 64 - 2 ^ 32) small
              ≡ done ((1 ∷ 2 ∷ []) ∷ [], 2) small)
        ⊎ (3 < (2 ^ 64 - 2 ^ 32) % 2 ^ 32 + 2)
          × (fd_pread 0 (record { is_null = false; len = 2 } ∷ []) (2 ^ 64 - 2 ^ 32) small ≡ fault))
negative_transfer_example =
    negative_transfer small 0 0 open_a file_a three (7 ∷ []) 2 (2 ^ 64 - 2 ^ 32) small-IsOpen
      (omega arith) (omega arith) (omega arith) (omega arith) (omega arith) (omega arith)
      (omega arith)

-- The state after a second descriptor for the open file.
abbrev pub duplicated : Fs
duplicated = record small {
  opens = Store.update small.opens 0 (some (record open_a { uses = 2 }));
  table = some 0 ∷ some 0 ∷ [];
}

dup_once : dup 0 small ≡ done 1 duplicated
unfolding dup get_open get_entry add_entry set_entry retain release load_open store_open free_slot
    grow
dup_once = refl

pub dup3_once : dup3 0 1 0 small ≡ done 1 duplicated
unfolding dup3 get_open get_entry set_entry retain release load_open store_open grow has
dup3_once = refl

set_small : set_entry 1 (some 0) small ≡ done none duplicated
unfolding set_entry retain release load_open store_open grow
set_small = refl

dup_shares_example :
    (slot small.table 0 ≢ none)
    × (slot small.table 1 ≡ none)
    × ((slot small.table 1 ≢ none) ⊎ (1 ≤ 1))
    × (slot duplicated.table 1 ≡ slot small.table 0)
dup_shares_example = dup_shares small duplicated 0 1 1 dup_once

dup3_shares_example :
    (◌≡◌ {A = ℕ} 1 1)
    × ((0 == 1) ≡ false)
    × (slot small.table 0 ≢ none)
    × (slot duplicated.table 1 ≡ slot small.table 0)
dup3_shares_example = dup3_shares small duplicated 0 1 0 1 1 dup3_once

set_entry-uses_example :
    (m : OpenFile) × (small.opens 0 ≡ some m)
    × ((2 + references 0 small.table) % 2 ^ 32 ≡ (m.uses + references 0 duplicated.table) % 2 ^ 32)
set_entry-uses_example =
    set_entry-uses 1 (some 0) small duplicated none 0 (record open_a { uses = 2 }) set_small refl

abbrev entry : Name → ℕ → Store.Entry
entry name ino = record { name = name; kind = data_file_kind; ino = ino }

abbrev listing : List Store.Entry
listing = entry (codes ".") 0 ∷ entry (codes "..") 0 ∷ entry (codes "a") 1 ∷ []

abbrev record_of : ℕ → Name → ℕ → Dirent
record_of off name ino = record { ino = ino; off = off; reclen = 280; kind = 8; name = name }

abbrev open_root : OpenFile
open_root = record open_a { file = 0; flags = 0; dirents = listing }

abbrev root_file : File
root_file = file_of (directory with_a) (some 0)

abbrev at_root : Fs
at_root = record small { opens = Store.update small.opens 0 (some open_root) }

at_root-Lists : Lists at_root 0 0 open_root root_file 0
unfolding get_open get_entry
at_root-Lists = record {
  entry = refl;
  opened = refl;
  file = refl;
  kind = refl;
  above = refl;
  start = omega arith;
  size = omega arith;
}

getdents64-resume_example :
    (t : Fs) × (u : Fs) × (r : List Dirent) × (r' : List Dirent) × (used : ℕ) × (used' : ℕ)
    × (getdents64 0 300 at_root ≡ done (r, used) t)
    × (getdents64 0 600 t ≡ done (r', used') u)
    × (r ++ r'
        ≡ record_of 1 (codes ".") 0 ∷ record_of 2 (codes "..") 0 ∷ record_of 3 (codes "a") 1 ∷ [])
    × (used + used' ≡ length (r ++ r') * 280)
    × (u.files ≡ at_root.files)
getdents64-resume_example =
    getdents64-resume at_root 0 0 open_root root_file 0 300 600 at_root-Lists (omega arith)
      (omega arith)
