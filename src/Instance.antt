-- ===== src/Instance.antt =====
-- The instance before its first call: the constructors of `FileTable` (wasmfs/file_table.cpp) and
-- of `WasmFS` (wasmfs/wasmfs.cpp), on the memory backend, with no file to preload.
pub mod Preload
use emscripten_memfswasm_wra.Base.{ℕ, Bool, true, false, Option, none, some, [], ◌∷◌, ◌++◌, bit_or}
use emscripten_memfswasm_wra.Base.Names.{codes}
use emscripten_memfswasm_wra.Posix.{
  o_rdonly, o_wronly, s_ifchr, s_irugo, s_irwxugo, s_iwugo, s_ixugo,
}
use emscripten_memfswasm_wra.Store.{
  FileId, DataImpl, null_file, stdin_file, stdout_file, stderr_file, random_file, data_file, Host,
  Fs, M, pure, ◌>>=◌, ◌>>◌, modify, set_parent,
}
use emscripten_memfswasm_wra.Files.{new_file, create_directory}
use emscripten_memfswasm_wra.Directory.{insert_directory, mount_child}
use emscripten_memfswasm_wra.Table.{create_open}

-- The memory backend that `wasmfs_create_root_dir` makes. 0 is `NullBackend`.
abbrev pub memory_backend : ℕ
memory_backend = 1

-- The constructors of the special files.
unfoldable pub special_file : DataImpl → ℕ → Bool → M FileId
special_file impl mode seekable = new_file (data_file impl) (bit_or mode s_ifchr) 0 seekable

-- `entries.emplace_back()` and `OpenFileState::create`: the slot holds the open file, whose count of
-- uses stays 0.
unfoldable pub open_standard : FileId → ℕ → M (Unit {0})
open_standard file flags = do
  o ← create_open file flags
  modify (λ s. record s { table = s.table ++ (some o ∷ []) })

-- What is mounted at `/dev`, when the directory could be made.
unfoldable pub mount_devices : Option FileId → FileId → FileId → FileId → M (Unit {0})
mount_devices none stdin stdout stderr = pure tt
mount_devices (some dev) stdin stdout stderr = do
  null ← special_file null_file (bit_or s_irugo s_iwugo) true
  mount_child dev (codes "null") null
  mount_child dev (codes "stdin") stdin
  mount_child dev (codes "stdout") stdout
  mount_child dev (codes "stderr") stderr
  random ← special_file random_file s_irugo false
  mount_child dev (codes "random") random
  urandom ← special_file random_file s_irugo false
  mount_child dev (codes "urandom") urandom
  pure tt

-- `WasmFS::initRootDirectory`
unfoldable pub init_root_directory : FileId → FileId → FileId → M FileId
init_root_directory stdin stdout stderr = do
  root ← create_directory memory_backend (bit_or s_irugo (bit_or s_ixugo s_iwugo))
  set_parent root (some root)
  dev ← insert_directory root (codes "dev") (bit_or s_irugo s_ixugo)
  mount_devices dev stdin stdout stderr
  insert_directory root (codes "tmp") s_irwxugo
  pure root

-- `FileTable::FileTable` and `WasmFS::WasmFS`
unfoldable pub boot : M (Unit {0})
boot = do
  stdin ← special_file stdin_file s_irugo false
  open_standard stdin o_rdonly
  stdout ← special_file stdout_file s_iwugo false
  open_standard stdout o_wronly
  stderr ← special_file stderr_file s_iwugo false
  open_standard stderr o_wronly
  root ← init_root_directory stdin stdout stderr
  modify (λ s. record s { root = root; cwd = root })

-- No object at all.
abbrev pub empty : Host → Fs
empty host = record {
  host = host;
  calls = 0;
  sent = [];
  files = λ _. none;
  next_file = 0;
  pipes = λ _. [];
  next_pipe = 0;
  opens = λ _. none;
  next_open = 0;
  table = [];
  root = 0;
  cwd = 0;
}
