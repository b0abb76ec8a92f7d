-- ===== src/Syscalls/Io.antt =====
-- Reading, writing and seeking: `writeAtOffset` and `readAtOffset` of wasmfs/syscalls.cpp with the
-- calls built on them, `__wasi_fd_close`, `__wasi_fd_sync` and `__wasi_fd_seek`.
--
-- The tests `iovs_len < 0 || offset < 0` of the source are never true, since both are unsigned, and
-- have no counterpart here. Offsets are 64-bit words, and `bytesWritten` a 32-bit one.
pub mod Writing
pub mod RoundTrip
pub mod Offsets
pub mod Append
pub mod Seeking
use emscripten_memfswasm_wra.Base.{
  ℕ, ◌+◌, ◌-◌, ◌%◌, Bool, not, ◌&&◌, none, some, List, [], ◌∷◌, length, ltb, leb, ◌==◌,
  if◌then◌else◌,
}
use emscripten_memfswasm_wra.Posix.{einval, efbig, eisdir, espipe, o_append, has}
use emscripten_memfswasm_wra.Memory.DataFile.{Bytes, off_t_min, off_t_mod, size_t_mod}
use emscripten_memfswasm_wra.Store.{
  FileId, is_data_file, OpenFile, M, value, error, pure, throw, throw_if, attempt, ◌>>=◌, ◌>>◌,
  load, load_open, store_open, update_mtime,
}
use emscripten_memfswasm_wra.Files.{write_file, read_file, get_size, notify}
use emscripten_memfswasm_wra.Table.{set_entry}
use emscripten_memfswasm_wra.Paths.{get_open}

-- `addWillOverFlow` at `__wasi_filesize_t`.
unfoldable pub add_will_overflow : ℕ → ℕ → Bool
add_will_overflow a b = ltb 0 a && ltb (off_t_mod - 1 - a) b

-- `OpenFileState::Handle::setPosition` and `setFlags`
unfoldable pub set_position : ℕ → ℕ → M (Unit {0})
set_position o p = do n ← load_open o; store_open o (record n { position = p })

unfoldable pub set_flags : ℕ → ℕ → M (Unit {0})
set_flags o flags = do n ← load_open o; store_open o (record n { flags = flags })

-- `OffsetHandling`
pub data OffsetHandling : Type 0 where
  open_file_state argument : OffsetHandling

-- `__wasi_ciovec_t`: whether the pointer is null, and the bytes to write.
pub record Ciovec : Type 0 where
  pub is_null : Bool
  pub bytes : Bytes

-- `__wasi_iovec_t`: whether the pointer is null, and the room that it has.
pub record Iovec : Type 0 where
  pub is_null : Bool
  pub len : ℕ

-- The loop of `writeAtOffset`.
unfoldable pub write_loop : FileId → ℕ → ℕ → List Ciovec → M ℕ
write_loop f offset sum [] = pure sum
write_loop f offset sum (v ∷ vs) = do
  throw_if (v.is_null && ltb 0 (length v.bytes)) einval
  throw_if (add_will_overflow offset sum) efbig
  result ← attempt (write_file f v.bytes ((offset + sum) % off_t_mod))
  elim result [
    | error e ↦ if ltb 0 sum then pure sum else throw e
    | value n ↦
        if ltb n (length v.bytes)
        then pure ((sum + n) % size_t_mod)
        else write_loop f offset ((sum + n) % size_t_mod) vs
  ]

-- The offset at which a write begins.
unfoldable pub write_start : OffsetHandling → ℕ → OpenFile → ℕ → M ℕ
write_start argument o state offset = pure offset
write_start open_file_state o state offset =
    if has state.flags o_append
    then (do size ← get_size state.file; set_position o size; pure size)
    else pure state.position

-- What is done to the open file and to the stamp after the transfer.
unfoldable pub advance : OffsetHandling → ℕ → Bool → ℕ → M (Unit {0})
advance argument o seekable p = pure tt
advance open_file_state o seekable p = if seekable then set_position o (p % off_t_mod) else pure tt

unfoldable pub write_at_offset : OffsetHandling → ℕ → List Ciovec → ℕ → M ℕ
write_at_offset handling fd iovs offset = do
  o ← get_open fd
  state ← load_open o
  n ← load state.file
  throw_if (not (is_data_file n.body)) eisdir
  start ← write_start handling o state offset
  sum ← write_loop state.file start 0 iovs
  advance handling o n.seekable (start + sum)
  if ltb 0 sum then update_mtime state.file else pure tt
  pure sum

-- The loop of `readAtOffset`: the bytes put into each buffer, and their number.
unfoldable pub read_loop : FileId → ℕ → ℕ → List Iovec → M (List Bytes × ℕ)
read_loop f offset sum [] = pure ([], sum)
read_loop f offset sum (v ∷ vs) = do
  throw_if (v.is_null && ltb 0 v.len) einval
  result ← attempt (read_file f v.len ((offset + sum) % off_t_mod))
  elim result [
    | error e ↦ if ltb 0 sum then pure ([], sum) else throw e
    | value (bytes, n) ↦ if ltb n v.len then pure (bytes ∷ [], (sum + n) % size_t_mod) else (do
      (rest, total) ← read_loop f offset ((sum + n) % size_t_mod) vs
      pure (bytes ∷ rest, total))
  ]

abbrev pub read_start : OffsetHandling → OpenFile → ℕ → ℕ
read_start argument state offset = offset
read_start open_file_state state offset = state.position

unfoldable pub read_at_offset : OffsetHandling → ℕ → List Iovec → ℕ → M (List Bytes × ℕ)
read_at_offset handling fd iovs offset = do
  o ← get_open fd
  state ← load_open o
  n ← load state.file
  throw_if (not (is_data_file n.body)) eisdir
  (buffers, sum) ← read_loop state.file (read_start handling state offset) 0 iovs
  advance handling o n.seekable (read_start handling state offset + sum)
  pure (buffers, sum)

-- `__wasi_fd_write`, `__wasi_fd_read`, `__wasi_fd_pwrite` and `__wasi_fd_pread`
unfoldable pub fd_write : ℕ → List Ciovec → M ℕ
fd_write fd iovs = write_at_offset open_file_state fd iovs 0

unfoldable pub fd_read : ℕ → List Iovec → M (List Bytes × ℕ)
fd_read fd iovs = read_at_offset open_file_state fd iovs 0

unfoldable pub fd_pwrite : ℕ → List Ciovec → ℕ → M ℕ
fd_pwrite fd iovs offset = write_at_offset argument fd iovs offset

unfoldable pub fd_pread : ℕ → List Iovec → ℕ → M (List Bytes × ℕ)
fd_pread fd iovs offset = read_at_offset argument fd iovs offset

-- `__wasi_fd_close`
unfoldable pub fd_close : ℕ → M (Unit {0})
fd_close fd = do
  o ← get_open fd
  closee ← set_entry fd none
  elim closee [ none ↦ pure tt | some f ↦ notify f ]

-- `__wasi_fd_sync`, whose `flush` answers 0 for every data file.
unfoldable pub fd_sync : ℕ → M (Unit {0})
fd_sync fd = do
  o ← get_open fd
  state ← load_open o
  n ← load state.file
  if is_data_file n.body then notify state.file else pure tt

-- `SEEK_SET`, `SEEK_CUR`, `SEEK_END`
abbrev pub seek_set : ℕ
seek_set = 0

abbrev pub seek_cur : ℕ
seek_cur = 1

abbrev pub seek_end : ℕ
seek_end = 2

-- The position that a seek asks for. The sum of two `off_t` wraps.
unfoldable pub seek_target : OpenFile → ℕ → ℕ → M ℕ
seek_target state offset whence =
    if whence == seek_set
    then pure offset
    else if whence == seek_cur
    then pure ((state.position + offset) % off_t_mod)
    else if whence == seek_end
    then (do size ← get_size state.file; pure ((size + offset) % off_t_mod))
    else throw einval

-- `__wasi_fd_seek`
unfoldable pub fd_seek : ℕ → ℕ → ℕ → M ℕ
fd_seek fd offset whence = do
  o ← get_open fd
  state ← load_open o
  n ← load state.file
  throw_if (not n.seekable) espipe
  position ← seek_target state offset whence
  throw_if (leb off_t_min position) einval
  set_position o position
  pure position
