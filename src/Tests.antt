-- ===== src/Tests.antt =====
-- The theorems at concrete inputs: a small state, and one application of each theorem.
mod Contents
mod Descriptors
mod Read
mod Dots
mod Fuzz
mod Start
mod Transfers
mod Tree
mod Making
mod Unlinking
mod Backends
mod Node
mod Calls
mod Icase
mod Sizes
mod Cwd
use emscripten_memfswasm_wra.Base.{
  ℕ, zero, suc, ◌+◌, ◌^◌, ◌≤◌, ◌<◌, ◌≡◌, ◌≢◌, ◌⊎◌, inl, inr, refl, Bool, true, false, Option, none,
  some, List, [], ◌∷◌, ◌++◌, length, max, get_elem?, ltb, ◌==◌, if◌then◌else◌, arith,
}
use emscripten_memfswasm_wra.Base.Names.{Name, codes}
use emscripten_memfswasm_wra.Memory.DataFile
use emscripten_memfswasm_wra.Memory.DataFile.{Bytes, Written, Fetched, written, fetched, max_size}
use emscripten_memfswasm_wra.Memory.DataFile.Laws.{read-write, write_frame, write_bound}
use emscripten_memfswasm_wra.Store.{
  Host, Body, File, Dir, OpenFile, Entry, Fs, data_file_kind, memory_file, data_file, directory,
  symlink, done, fail, fault, out_of_fuel,
}
use emscripten_memfswasm_wra.Table.{slot, add_entry, set_entry, get_entry}
use emscripten_memfswasm_wra.Paths.{segments, get_open, parse_file, parse_parent}
use emscripten_memfswasm_wra.Paths.Segments.{join, Components, segments-join}
use emscripten_memfswasm_wra.Syscalls.Io.{Ciovec}

abbrev host : Host
host = record {
  date_now = λ n. 1000 + n;
  read_stdin = λ n len offset. ([], 0);
  write_stdout = λ n bytes offset. length bytes;
  write_stderr = λ n bytes offset. length bytes;
  getentropy = λ n len. [];
}

abbrev file_of : Body → Option ℕ → File
file_of body parent = record {
  body = body;
  mode = 0o777;
  atime = 0;
  mtime = 0;
  ctime = 0;
  parent = parent;
  backend = 1;
  seekable = true;
}

abbrev no_entries : Dir
no_entries = record { entries = []; dcache = [] }

abbrev with_a : Dir
with_a = record { entries = record { name = codes "a"; child = 1 } ∷ []; dcache = [] }

abbrev three : Bytes
three = 1 ∷ 2 ∷ 3 ∷ []

abbrev root_only : ℕ → Option File
root_only j = if j == 0 then some (file_of (directory no_entries) (some 0)) else none

-- The root with a data file `a`, and beside them a directory that was removed.
abbrev tree_with_a : ℕ → Option File
tree_with_a j =
    if j == 0
    then some (file_of (directory with_a) (some 0))
    else if j == 1
    then some (file_of (data_file (memory_file three)) (some 0))
    else if j == 2
    then some (file_of (directory no_entries) none)
    else none

-- A read and write descriptor with `O_APPEND`
abbrev open_a : OpenFile
open_a = record { file = 1; position = 0; flags = 0o2002; uses = 1; dirents = [] }

abbrev state_of : (ℕ → Option File) → ℕ → Fs
state_of files next = record {
  host = host;
  calls = 0;
  sent = [];
  files = files;
  next_file = next;
  pipes = λ _. [];
  next_pipe = 0;
  opens = λ o. if o == 0 then some open_a else none;
  next_open = 1;
  table = some 0 ∷ [];
  root = 0;
  cwd = 0;
}

abbrev small : Fs
small = state_of tree_with_a 3

abbrev fresh : Fs
fresh = state_of root_only 1
