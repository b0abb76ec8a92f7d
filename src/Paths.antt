-- ===== src/Paths.antt =====
-- Path resolution, wasmfs/paths.cpp.
--
-- The counter of followed links is passed by reference in the source; here it is an argument and a
-- part of the result. The calls nest as deep as links are followed, so `follow` recurs on fuel, and
-- `link_fuel` is one more than `MAX_RECURSIONS`.
pub mod Segments
pub mod Stripped
pub mod Fuel
pub mod Resolved
use emscripten_memfswasm_wra.Base.{
  ℕ, zero, suc, ◌+◌, Bool, true, false, Option, none, some, List, [], ◌∷◌, ◌++◌, length, leb, ◌==◌,
  ◌&&◌, if◌then◌else◌,
}
use emscripten_memfswasm_wra.Base.Names.{Name, codes}
use emscripten_memfswasm_wra.Posix.{
  ebadf, enoent, enotdir, eloop, at_fdcwd, at_empty_path, at_symlink_nofollow, has,
}
use emscripten_memfswasm_wra.Store.{
  FileId, data_file, directory, symlink, is_directory, Fs, M, out_of_fuel, pure, throw, crash, gets,
  ◌>>=◌, ◌>>◌, throw_if, load, load_open,
}
use emscripten_memfswasm_wra.Directory
use emscripten_memfswasm_wra.Table.{get_entry}

abbrev pub max_recursions : ℕ
max_recursions = 40

abbrev pub link_fuel : ℕ
link_fuel = 41

abbrev pub slash : ℕ
slash = b'/'

-- `while (!path.empty() && path.back() == '/') path.remove_suffix(1);`
unfoldable pub strip_trailing : Name → Name
strip_trailing [] = []
strip_trailing (c ∷ cs) = elim (strip_trailing cs) [
  | [] ↦ if c == slash then [] else c ∷ []
  | d ∷ ds ↦ c ∷ d ∷ ds
]

abbrev pub flush : Name → List Name → List Name
flush [] rest = rest
flush (c ∷ cs) rest = (c ∷ cs) ∷ rest

-- The pieces between slashes, in which the loop of `doParseParent` cuts the path: it skips the
-- slashes before a piece, and the piece ends at the next slash.
unfoldable pub cut : Name → Name → List Name
cut piece [] = flush piece []
cut piece (c ∷ cs) = elim (c == slash) [
  | true ↦ flush piece (cut [] cs)
  | false ↦ cut (piece ++ (c ∷ [])) cs
]

unfoldable pub segments : Name → List Name
segments path = cut [] path

-- The link-following loop of `getChild`: directory, child, and links followed so far.
abbrev pub Follow : Type 0
Follow = FileId → FileId → ℕ → M (FileId × ℕ)

module _ (follow : Follow) where
  -- `getChild` in paths.cpp
  unfoldable pub child_with : FileId → Name → Bool → ℕ → M (FileId × ℕ)
  child_with dir name links recursions = do
    found ← Directory.get_child dir name
    elim found [
      | none ↦ throw enoent
      | some child ↦ if links then follow dir child recursions else pure (child, recursions)
    ]

  -- The loop of `doParseParent`, with the pieces of the path that are left.
  unfoldable pub walk : FileId → List Name → ℕ → M (FileId × Name × ℕ)
  walk curr [] recursions = pure (curr, [], recursions)
  walk curr (leaf ∷ []) recursions = pure (curr, leaf, recursions)
  walk curr (segment ∷ next ∷ rest) recursions = do
    (child, recursions') ← child_with curr segment true recursions
    n ← load child
    if is_directory n.body then walk child (next ∷ rest) recursions' else throw enotdir

  -- `doParseParent` past the test for an absolute path.
  unfoldable pub relative_parent_with : Name → FileId → ℕ → M (FileId × Name × ℕ)
  relative_parent_with path curr recursions = elim (strip_trailing path) [
    | [] ↦ pure (curr, codes ".", recursions)
    | c ∷ cs ↦ walk curr (segments (c ∷ cs)) recursions
  ]

  -- `doParseParent`
  unfoldable pub parent_with : Name → FileId → ℕ → M (FileId × Name × ℕ)
  parent_with [] curr recursions = throw enoent
  parent_with (c ∷ cs) curr recursions = λ s.
      if c == slash
      then relative_parent_with cs s.root recursions s
      else relative_parent_with (c ∷ cs) curr recursions s

  -- `doParseFile`
  unfoldable pub file_with : Name → FileId → Bool → ℕ → M (FileId × ℕ)
  file_with path base links recursions = do
    (parent, leaf, recursions') ← parent_with path base recursions
    child_with parent leaf links recursions'

-- The `while` loop of `getChild`, and the call of `doParseFile` in it.
unfoldable pub follow : ℕ → Follow
follow zero dir child recursions = λ _. out_of_fuel
follow (suc fuel) dir child recursions = do
  n ← load child
  elim n.body [
    | data_file _ ↦ pure (child, recursions)
    | directory _ ↦ pure (child, recursions)
    | symlink target ↦ do
      throw_if (leb (max_recursions + 1) (recursions + 1)) eloop
      throw_if (length target == 0) enoent
      (child', recursions') ← file_with (follow fuel) target dir true (recursions + 1)
      follow fuel dir child' recursions'
  ]

-- `getBaseDir`
unfoldable pub get_base_dir : ℕ → M FileId
get_base_dir basefd = λ s.
    if basefd == at_fdcwd
    then pure s.cwd s
    else (do
      entry ← get_entry basefd
      elim entry [
        | none ↦ throw ebadf
        | some o ↦ do
          open_file ← load_open o
          n ← load open_file.file
          if is_directory n.body then pure open_file.file else throw enotdir
      ])
        s

-- `path::parseParent`
unfoldable pub parse_parent : Name → ℕ → M (FileId × Name)
parse_parent path basefd = do
  base ← get_base_dir basefd
  (parent, leaf, _) ← parent_with (follow link_fuel) path base 0
  pure (parent, leaf)

-- `path::parseFile`
unfoldable pub parse_file : Name → ℕ → Bool → M FileId
parse_file path basefd links = do
  base ← get_base_dir basefd
  (file, _) ← file_with (follow link_fuel) path base links 0
  pure file

-- The open file behind a descriptor.
unfoldable pub get_open : ℕ → M ℕ
get_open fd = do entry ← get_entry fd; elim entry [ none ↦ throw ebadf | some o ↦ pure o ]

-- `path::getFileAt`
unfoldable pub get_file_at : ℕ → Name → ℕ → M FileId
get_file_at fd path flags = λ s.
    if has flags at_empty_path && length path == 0
    then (if fd == at_fdcwd
        then pure s.cwd s
        else (do o ← get_open fd; open_file ← load_open o; pure open_file.file) s)
    else parse_file path fd (if has flags at_symlink_nofollow then false else true) s

-- `path::getFileFrom`
unfoldable pub get_file_from : FileId → Name → M FileId
get_file_from base path = do (file, _) ← file_with (follow link_fuel) path base true 0; pure file
