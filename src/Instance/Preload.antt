-- ===== src/Instance/Preload.antt =====
-- `WasmFS::preloadFiles` of wasmfs/wasmfs.cpp and `DataFile::Handle::preloadFromJS` of
-- wasmfs/file.cpp. What the embedder has to preload is the parameter.
pub mod Files
use emscripten_memfswasm_wra.Base.{
  ℕ, Bool, true, false, Option, none, some, List, [], ◌∷◌, if◌then◌else◌, bit_or,
}
use emscripten_memfswasm_wra.Base.Names.{Name}
use emscripten_memfswasm_wra.Posix.{at_fdcwd, s_irugo, s_ixugo}
use emscripten_memfswasm_wra.Memory.DataFile.{Bytes}
use emscripten_memfswasm_wra.Store.{
  FileId, is_directory, M, Result, value, error, pure, crash, attempt, ◌>>=◌, ◌>>◌, load,
}
use emscripten_memfswasm_wra.Files.{write_file}
use emscripten_memfswasm_wra.Directory.{insert_data_file, insert_directory}
use emscripten_memfswasm_wra.Directory
use emscripten_memfswasm_wra.Paths.{parse_file, parse_parent}
use emscripten_memfswasm_wra.Instance.{boot}

-- `wasmFS$preloadedDirs`: the path of the parent, and the name of the child.
pub record PreloadedDir : Type 0 where
  pub parent_path : Name
  pub child_name : Name

-- `wasmFS$preloadedFiles`
pub record PreloadedFile : Type 0 where
  pub path_name : Name
  pub mode : ℕ
  pub bytes : Bytes

-- `preloadFromJS`. The result of the write is not looked at.
unfoldable pub preload_from_js : FileId → Bytes → M (Unit {0})
preload_from_js file bytes = do attempt (write_file file bytes 0); pure tt

-- A path that does not lead to a directory aborts.
unfoldable pub preload_dir : PreloadedDir → M (Unit {0})
preload_dir d = do
  parsed ← attempt (parse_file d.parent_path at_fdcwd true)
  elim parsed [
    | error e ↦ crash
    | value parent ↦ do
      n ← load parent
      if is_directory n.body
          then (do
            found ← Directory.get_child parent d.child_name
            elim found [
              | some child ↦ pure tt
              | none ↦ do insert_directory parent d.child_name (bit_or s_irugo s_ixugo); pure tt
            ])
          else crash
  ]

-- A file that cannot be made is a null pointer.
unfoldable pub preload_file : PreloadedFile → M (Unit {0})
preload_file f = do
  parsed ← attempt (parse_parent f.path_name at_fdcwd)
  elim parsed [
    | error e ↦ crash
    | value (parent, child_name) ↦ do
      created ← insert_data_file parent child_name f.mode
      elim created [ none ↦ crash | some file ↦ preload_from_js file f.bytes ]
  ]

-- The loops over the numbers of directories and files.
unfoldable pub preload_dirs : List PreloadedDir → M (Unit {0})
preload_dirs [] = pure tt
preload_dirs (d ∷ ds) = do preload_dir d; preload_dirs ds

unfoldable pub preload_all : List PreloadedFile → M (Unit {0})
preload_all [] = pure tt
preload_all (f ∷ fs) = do preload_file f; preload_all fs

unfoldable pub preload_files : List PreloadedDir → List PreloadedFile → M (Unit {0})
preload_files dirs files = do preload_dirs dirs; preload_all files

-- `WasmFS::WasmFS`, with files to preload.
unfoldable pub start : List PreloadedDir → List PreloadedFile → M (Unit {0})
start dirs files = do boot; preload_files dirs files
