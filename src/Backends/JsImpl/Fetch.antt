-- ===== src/Backends/JsImpl/Fetch.antt =====
-- wasmfs/backends/fetch_backend.cpp: the paths that files and directories of the fetch backend keep. A
-- path is set once, when the object is made: a rename, which is the one of the memory backend, leaves it.
use emscripten_memfswasm_wra.Base.{ℕ, ◌∷◌, ◌++◌}
use emscripten_memfswasm_wra.Base.Names.{Name}
use emscripten_memfswasm_wra.Store.{FileId, M, pure, ◌>>=◌, ◌>>◌, update}
use emscripten_memfswasm_wra.Files.{create_file, create_directory}
use emscripten_memfswasm_wra.Directory.{add_entry}
use emscripten_memfswasm_wra.Paths.{slash}

-- `filePath` and `dirPath` of the objects.
abbrev pub PathMap : Type 0
PathMap = FileId → Name

-- `FetchDirectory::getChildPath`
unfoldable pub get_child_path : PathMap → FileId → Name → Name
get_child_path paths dir name = paths dir ++ (slash ∷ name)

-- `FetchDirectory::insertDataFile`. The contents of the file are those of `ProxiedAsyncJSImplFile`.
unfoldable pub insert_data_file : ℕ → PathMap → FileId → Name → ℕ → M (FileId × PathMap)
insert_data_file backend paths dir name mode = do
  child ← create_file backend mode
  add_entry dir name child
  pure (child, update paths child (get_child_path paths dir name))

-- `FetchDirectory::insertDirectory`
unfoldable pub insert_directory : ℕ → PathMap → FileId → Name → ℕ → M (FileId × PathMap)
insert_directory backend paths dir name mode = do
  child ← create_directory backend mode
  add_entry dir name child
  pure (child, update paths child (get_child_path paths dir name))

-- `FetchBackend::createFile` and `createDirectory`, and `wasmfs_create_fetch_backend`
unfoldable pub create_fetch_file : Name → ℕ → PathMap → ℕ → M (FileId × PathMap)
create_fetch_file base_url backend paths mode = do
  child ← create_file backend mode
  pure (child, update paths child base_url)

unfoldable pub create_fetch_directory : Name → ℕ → PathMap → ℕ → M (FileId × PathMap)
create_fetch_directory base_url backend paths mode = do
  child ← create_directory backend mode
  pure (child, update paths child base_url)

-- `_wasmfs_fetch_get_file_path`
unfoldable pub get_file_path : PathMap → FileId → Name
get_file_path paths file = paths file
