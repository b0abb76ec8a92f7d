-- ===== src/Syscalls/Mapping.antt =====
-- Memory mapping in wasmfs/syscalls.cpp, and the calls there that are stubs.
--
-- A region is the list of its bytes. Whether there is room for it is an argument.
pub mod Shared
use emscripten_memfswasm_wra.Base.{
  ℕ, ◌-◌, Bool, true, false, not, ◌&&◌, ◌||◌, List, [], ◌∷◌, ◌++◌, length, take, replicate, ◌==◌,
  if◌then◌else◌, bit_and,
}
use emscripten_memfswasm_wra.Posix.{
  eperm, einval, eacces, enodev, enomem, enosys, o_accmode, o_wronly, o_rdwr, has,
}
use emscripten_memfswasm_wra.Memory.DataFile.{Bytes}
use emscripten_memfswasm_wra.Store.{
  M, pure, throw, throw_if, crash, ◌>>=◌, ◌>>◌, load, load_open, is_data_file,
}
use emscripten_memfswasm_wra.Files.{read_file}
use emscripten_memfswasm_wra.Paths.{get_open}
use emscripten_memfswasm_wra.Syscalls.Io.{Ciovec, fd_pwrite}

abbrev pub prot_write : ℕ
prot_write = 2

abbrev pub prot_exec : ℕ
prot_exec = 4

-- `MAP_TYPE`
abbrev pub map_type : ℕ
map_type = 0xf

abbrev pub map_shared : ℕ
map_shared = 1

abbrev pub map_private : ℕ
map_private = 2

abbrev pub map_shared_validate : ℕ
map_shared_validate = 3

-- The test of the type of a mapping.
unfoldable pub check_map_type : ℕ → M (Unit {0})
check_map_type kind =
    if (kind == map_private) || (kind == map_shared)
    then pure tt
    else if kind == map_shared_validate
    then crash
    else throw einval

-- `_mmap_js`: the region that is allocated and filled.
unfoldable pub mmap : Bool → ℕ → ℕ → ℕ → ℕ → ℕ → M Bytes
mmap room len prot flags fd offset = do
  throw_if (has prot prot_exec) eperm
  throw_if (len == 0) einval
  check_map_type (bit_and flags map_type)
  o ← get_open fd
  state ← load_open o
  throw_if (bit_and state.flags o_accmode == o_wronly) eacces
  throw_if
      (has prot prot_write
        && not (bit_and flags map_type == map_private)
        && not (bit_and state.flags o_accmode == o_rdwr))
      eacces
  n ← load state.file
  throw_if (not (is_data_file n.body)) enodev
  throw_if (not room) enomem
  (bytes, nread) ← read_file state.file len offset
  pure (take nread bytes ++ replicate (len - nread) 0)

-- `_msync_js` of a region that holds these bytes.
unfoldable pub msync : Bytes → ℕ → ℕ → ℕ → ℕ → M (Unit {0})
msync region prot flags fd offset =
    if (bit_and flags map_type == map_shared) && has prot prot_write
    then (do fd_pwrite fd (record { is_null = false; bytes = region } ∷ []) offset; pure tt)
    else pure tt

-- `_munmap_js`
unfoldable pub munmap : Bytes → ℕ → ℕ → ℕ → ℕ → M (Unit {0})
munmap region prot flags fd offset = msync region prot flags fd offset

-- The calls on sockets, which all return the same error.
unfoldable pub socket_call : M (Unit {0})
socket_call = throw enosys

-- `__syscall_fadvise64` and `__syscall__newselect`
unfoldable pub fadvise64 : ℕ → ℕ → ℕ → ℕ → M (Unit {0})
fadvise64 fd offset len advice = pure tt

unfoldable pub newselect : M (Unit {0})
newselect = throw enomem
