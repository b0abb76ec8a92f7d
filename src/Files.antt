-- ===== src/Files.antt =====
-- The virtual functions of `DataFile`, by the class of the file: `MemoryDataFile`
-- (wasmfs/memory_backend.h), the special files of wasmfs/special_files.cpp and the `PipeFile` of
-- wasmfs/pipe_backend.h. A negative result in the source is a `fail` here.
--
-- `writeBuffer` of `WritingStdFile` is never filled in this version, so `flush` has nothing to do.
pub mod Special
use emscripten_memfswasm_wra.Base.{
  ℕ, zero, suc, ◌+◌, ◌-◌, ◌/◌, ◌^◌, Bool, true, false, none, [], ◌∷◌, ◌++◌, length, take, drop, min,
  ltb, ◌==◌, if◌then◌else◌, bit_or,
}
use emscripten_memfswasm_wra.Base.Names.{Name}
use emscripten_memfswasm_wra.Posix.{einval, eperm, s_ifreg, s_ifdir, s_iflnk}
use emscripten_memfswasm_wra.Memory.DataFile
use emscripten_memfswasm_wra.Memory.DataFile.{Bytes, written, refused, fetched, sized, aborts}
use emscripten_memfswasm_wra.Store.{
  FileId, DataImpl, memory_file, null_file, stdin_file, stdout_file, stderr_file, random_file,
  pipe_file, Body, data_file, directory, symlink, File, Fs, M, done, pure, throw, crash, ◌>>=◌,
  ◌>>◌, update, load, store, make_file, date_now,
}

-- A `size_t` returned as an `ssize_t`: 32 bits, negative from 2^31 on.
unfoldable pub as_ssize : ℕ → M ℕ
as_ssize n = if ltb n (2 ^ 31) then pure n else throw (2 ^ 32 - n)

-- Replaces the implementation of the data file at `f`.
unfoldable pub store_data : FileId → File → DataImpl → M (Unit {0})
store_data f n impl = store f (record n { body = data_file impl })

-- A call of `write_stdout` (1) or `write_stderr` (2).
unfoldable pub send : ℕ → (ℕ → Bytes → ℕ → ℕ) → Bytes → ℕ → M ℕ
send stream call buf offset s = done (call s.calls buf offset) (record s {
  calls = s.calls + 1;
  sent = s.sent ++ (record { stream = stream; bytes = buf; offset = offset } ∷ []);
})

-- `DataFile::write`
unfoldable pub write_impl : FileId → File → DataImpl → Bytes → ℕ → M ℕ
write_impl f n (memory_file buffer) buf offset = elim (DataFile.write buf offset buffer) [
  | written buffer' ↦ do store_data f n (memory_file buffer'); as_ssize (length buf)
  | refused e ↦ throw e
  | DataFile.Written.out_of_bounds ↦ crash
]
write_impl f n null_file buf offset = as_ssize (length buf)
write_impl f n stdin_file buf offset = throw einval
write_impl f n stdout_file buf offset = λ s. (send 1 s.host.write_stdout buf offset >>= as_ssize) s
write_impl f n stderr_file buf offset = λ s. (send 2 s.host.write_stderr buf offset >>= as_ssize) s
write_impl f n random_file buf offset = throw einval
write_impl f n (pipe_file p) buf offset =
    λ s. as_ssize (length buf) (record s { pipes = update s.pipes p (s.pipes p ++ buf) })

-- `getentropy(buf, n)`
unfoldable pub get_entropy : ℕ → M Bytes
get_entropy n s = done (s.host.getentropy s.calls n) (record s { calls = s.calls + 1 })

-- The loop of `RandomFile::read`, 256 bytes a round.
unfoldable pub random_fill : ℕ → ℕ → M Bytes
random_fill zero left = pure []
random_fill (suc rounds) left = elim (left == 0) [
  | true ↦ pure []
  | false ↦ do
    bytes ← get_entropy (min left 256)
    rest ← random_fill rounds (left - 256)
    pure (bytes ++ rest)
]

-- `DataFile::read`: the bytes that were put into the buffer, and the result.
unfoldable pub read_impl : FileId → File → DataImpl → ℕ → ℕ → M (Bytes × ℕ)
read_impl f n (memory_file buffer) len offset = elim (DataFile.read len offset buffer) [
  | fetched bytes ↦ do r ← as_ssize (length bytes); pure (bytes, r)
  | DataFile.Fetched.out_of_bounds ↦ crash
]
read_impl f n null_file len offset = pure ([], 0)
read_impl f n stdin_file len offset = λ s.
    let answer = s.host.read_stdin s.calls len offset in
    (do r ← as_ssize answer.1; pure (answer.0, r)) (record s { calls = s.calls + 1 })
read_impl f n stdout_file len offset = throw einval
read_impl f n stderr_file len offset = throw einval
read_impl f n random_file len offset = do
  bytes ← random_fill (len / 256 + 1) len
  r ← as_ssize len
  pure (bytes, r)
read_impl f n (pipe_file p) len offset = λ s.
    (do r ← as_ssize (min len (length (s.pipes p))); pure (take len (s.pipes p), r))
      (record s { pipes = update s.pipes p (drop len (s.pipes p)) })

-- `DataFile::setSize`
unfoldable pub set_size_impl : FileId → File → DataImpl → ℕ → M (Unit {0})
set_size_impl f n (memory_file buffer) size = elim (DataFile.set_size size buffer) [
  | sized buffer' ↦ store_data f n (memory_file buffer')
  | aborts ↦ crash
]
set_size_impl f n (pipe_file p) size = pure tt
set_size_impl f n _ size = throw eperm

-- Calls through the pointer. The callers have made sure that it is a data file.
unfoldable pub write_file : FileId → Bytes → ℕ → M ℕ
write_file f buf offset = do
  n ← load f
  elim n.body [
    | data_file impl ↦ write_impl f n impl buf offset
    | directory _ ↦ crash
    | symlink _ ↦ crash
  ]

unfoldable pub read_file : FileId → ℕ → ℕ → M (Bytes × ℕ)
read_file f len offset = do
  n ← load f
  elim n.body [
    | data_file impl ↦ read_impl f n impl len offset
    | directory _ ↦ crash
    | symlink _ ↦ crash
  ]

unfoldable pub set_size : FileId → ℕ → M (Unit {0})
set_size f size = do
  n ← load f
  elim n.body [
    | data_file impl ↦ set_size_impl f n impl size
    | directory _ ↦ crash
    | symlink _ ↦ crash
  ]

-- `DataFile::open`, `close` and `flush`, which all classes answer with 0.
unfoldable pub notify : FileId → M (Unit {0})
notify f = do load f; pure tt

abbrev pub size_of_data : DataImpl → Fs → ℕ
size_of_data (memory_file buffer) s = length buffer
size_of_data (pipe_file p) s = length (s.pipes p)
size_of_data _ s = 0

abbrev pub size_of : Body → Fs → ℕ
size_of (data_file impl) s = size_of_data impl s
size_of (directory _) s = 4096
size_of (symlink target) s = length target

-- `File::getSize`
unfoldable pub get_size : FileId → M ℕ
get_size f = do n ← load f; λ s. done (size_of n.body s) s

-- The constructor of `File`: one time for the three stamps, and no parent.
unfoldable pub new_file : Body → ℕ → ℕ → Bool → M FileId
new_file body mode backend seekable = do
  t ← date_now
  make_file (record {
    body = body;
    mode = mode;
    atime = t;
    mtime = t;
    ctime = t;
    parent = none;
    backend = backend;
    seekable = seekable;
  })

-- `MemoryBackend::createFile`, `createDirectory` and `createSymlink`.
unfoldable pub create_file : ℕ → ℕ → M FileId
create_file backend mode = new_file (data_file (memory_file [])) (bit_or mode s_ifreg) backend true

unfoldable pub create_directory : ℕ → ℕ → M FileId
create_directory backend mode =
    new_file (directory (record { entries = []; dcache = [] })) (bit_or mode s_ifdir) backend true

unfoldable pub create_symlink : ℕ → Name → M FileId
create_symlink backend target = new_file (symlink target) s_iflnk backend true
