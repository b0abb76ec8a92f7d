-- ===== src/JsApi/GetPath.antt =====
-- `getPath` of wasmfs/emscripten.cpp, which `emscripten_get_preloaded_image_data_from_FILE` hands on.
use emscripten_memfswasm_wra.Base.{ℕ, zero, suc, ◌+◌, none, some, [], ◌++◌, true, false, ◌==◌}
use emscripten_memfswasm_wra.Base.Names.{Name, codes}
use emscripten_memfswasm_wra.Store.{
  FileId, M, pure, out_of_fuel, gets, ◌>>=◌, load_open, get_parent,
}
use emscripten_memfswasm_wra.Directory.{get_name}
use emscripten_memfswasm_wra.Table.{get_entry}

-- The loop up to the root. A file without a parent was unlinked.
unfoldable pub path_loop : ℕ → FileId → FileId → Name → M Name
path_loop zero root curr result = λ _. out_of_fuel
path_loop (suc fuel) root curr result = elim (curr == root) [
  | true ↦ pure result
  | false ↦ do
    parent ← get_parent curr
    elim parent [
      | none ↦ pure (codes "?/" ++ result)
      | some p ↦ do name ← get_name p curr; path_loop fuel root p (codes "/" ++ name ++ result)
    ]
]

-- The fuel is the number of all files.
unfoldable pub get_path : ℕ → M Name
get_path fd = do
  entry ← get_entry fd
  elim entry [
    | none ↦ pure (codes "!")
    | some o ↦ do
      state ← load_open o
      root ← gets (λ s. s.root)
      fuel ← gets (λ s. s.next_file + 1)
      path_loop fuel root state.file []
  ]
