-- ===== src/Directory.antt =====
-- `Directory::Handle` of wasmfs/file.cpp over the `MemoryDirectory` of
-- wasmfs/backends/memory_backend.cpp, which keeps file identity itself. So the dcache holds mount
-- points only, and every change of the entries goes to the vector.
pub mod Insert
pub mod Remove
pub mod Tree
pub mod Lookup
use emscripten_memfswasm_wra.Base.{
  ℕ, ◌+◌, Bool, true, false, not, ◌||◌, Option, none, some, List, [], ◌∷◌, ◌++◌, length,
  if◌then◌else◌,
}
use emscripten_memfswasm_wra.Base.Names.{Name, name_eq, codes}
use emscripten_memfswasm_wra.Posix.{eperm}
use emscripten_memfswasm_wra.Memory.Entries.{
  ChildEntry, Entries, find_entry, insert_child, erase_entry, erase_file, DCacheKind, normal, mount,
  Cached, DCache, find_cached, insert_cached, assign_cached, erase_cached, find_cached_file, mounts,
}
use emscripten_memfswasm_wra.Memory.Entries
use emscripten_memfswasm_wra.Store.{
  FileId, Dir, data_file, directory, symlink, kind_of, Entry, M, pure, throw, crash, ◌>>=◌, ◌>>◌,
  load, store, get_parent, set_parent, update_mtime, get_backend,
}
use emscripten_memfswasm_wra.Files.{create_file, create_directory, create_symlink}

-- `file->cast<Directory>()`, which has no check in this build.
unfoldable pub load_dir : FileId → M Dir
load_dir f = do
  n ← load f
  elim n.body [ data_file _ ↦ crash | directory d ↦ pure d | symlink _ ↦ crash ]

unfoldable pub store_dir : FileId → Dir → M (Unit {0})
store_dir f d = do n ← load f; store f (record n { body = directory d })

-- `MemoryDirectory::maintainsFileIdentity`
abbrev pub maintains_file_identity : Dir → Bool
maintains_file_identity d = true

abbrev pub is_mount : DCacheKind → Bool
is_mount normal = false
is_mount mount = true

-- `dcache.insert`, which does nothing at a key that is there.
unfoldable pub try_insert : Cached → DCache → DCache
try_insert c cs = elim (find_cached c.name cs) [ none ↦ insert_cached c cs | some _ ↦ cs ]

-- The dcache is left alone if the backend does not use it, but for mount points.
unfoldable pub update_cache : FileId → Dir → Cached → M (Unit {0})
update_cache dir d c =
    if is_mount c.kind || not (maintains_file_identity d)
    then store_dir dir (record d { dcache = try_insert c d.dcache })
    else pure tt

unfoldable pub cache_child : FileId → Name → FileId → DCacheKind → M (Unit {0})
cache_child dir name child kind = do
  d ← load_dir dir
  update_cache dir d (record { name = name; kind = kind; file = child })
  set_parent child (some dir)

-- The part of `getChild` past the two special names.
unfoldable pub look_up : FileId → Name → M (Option FileId)
look_up dir name = do
  d ← load_dir dir
  elim (find_cached name d.dcache) [
    | some c ↦ pure (some c.file)
    | none ↦ elim (find_entry name d.entries) [
      | none ↦ pure none
      | some child ↦ do cache_child dir name child normal; pure (some child)
    ]
  ]

-- `Directory::Handle::getChild`
unfoldable pub get_child : FileId → Name → M (Option FileId)
get_child dir name = do
  parent ← get_parent dir
  elim parent [
    | none ↦ pure none
    | some p ↦
        if name_eq name (codes ".")
        then pure (some dir)
        else if name_eq name (codes "..")
        then pure (some p)
        else look_up dir name
  ]

unfoldable pub mount_child : FileId → Name → FileId → M Bool
mount_child dir name child = do
  parent ← get_parent dir
  elim parent [ none ↦ pure false | some p ↦ do cache_child dir name child mount; pure true ]

-- `MemoryDirectory::insertChild`
unfoldable pub add_entry : FileId → Name → FileId → M (Unit {0})
add_entry dir name child = do
  d ← load_dir dir
  store_dir dir (record d { entries = insert_child name child d.entries })

-- `insertDataFile`, `insertDirectory` and `insertSymlink` of the handle, which differ in what the
-- backend of the directory creates.
unfoldable pub insert_with : (ℕ → M FileId) → FileId → Name → M (Option FileId)
insert_with create dir name = do
  parent ← get_parent dir
  elim parent [
    | none ↦ pure none
    | some p ↦ do
      backend ← get_backend dir
      child ← create backend
      add_entry dir name child
      cache_child dir name child normal
      update_mtime dir
      pure (some child)
  ]

unfoldable pub insert_data_file : FileId → Name → ℕ → M (Option FileId)
insert_data_file dir name mode = insert_with (λ backend. create_file backend mode) dir name

unfoldable pub insert_directory : FileId → Name → ℕ → M (Option FileId)
insert_directory dir name mode = insert_with (λ backend. create_directory backend mode) dir name

unfoldable pub insert_symlink : FileId → Name → Name → M (Option FileId)
insert_symlink dir name target = insert_with (λ backend. create_symlink backend target) dir name

-- `MemoryDirectory::removeChild`
unfoldable pub remove_entry : FileId → Name → M (Unit {0})
remove_entry dir name = do
  d ← load_dir dir
  elim (find_entry name d.entries) [
    | none ↦ pure tt
    | some child ↦ do
      set_parent child none
      d' ← load_dir dir
      store_dir dir (record d' { entries = erase_entry name d'.entries })
  ]

-- `MemoryDirectory::insertMove`
unfoldable pub move_entry : FileId → Name → FileId → FileId → M (Unit {0})
move_entry dir name file old_parent = do
  old ← load_dir old_parent
  store_dir old_parent (record old { entries = erase_file file old.entries })
  remove_entry dir name
  add_entry dir name file

-- The update of the caches in `insertMove` for a file that its old parent holds in the cache.
unfoldable pub move_cached : FileId → Name → FileId → Cached → M (Unit {0})
move_cached dir name old_parent entry = do
  old ← load_dir old_parent
  store_dir old_parent (record old { dcache = erase_cached entry.name old.dcache })
  d ← load_dir dir
  elim (find_cached name d.dcache) [
    | none ↦
        store_dir dir (record d { dcache = insert_cached (record entry { name = name }) d.dcache })
    | some overwritten ↦ do
      set_parent overwritten.file none
      d' ← load_dir dir
      store_dir dir (record d' { dcache = assign_cached (record entry { name = name }) d'.dcache })
  ]

-- `Directory::Handle::insertMove`. A file without a parent would be a null pointer here.
unfoldable pub insert_move : FileId → Name → FileId → M (Unit {0})
insert_move dir name file = do
  parent ← get_parent dir
  elim parent [
    | none ↦ throw eperm
    | some p ↦ do
      from ← get_parent file
      elim from [
        | none ↦ crash
        | some old_parent ↦ do
          old ← load_dir old_parent
          move_entry dir name file old_parent
          elim (find_cached_file file old.dcache) [
            | none ↦ pure tt
            | some entry ↦ move_cached dir name old_parent entry
          ]
          set_parent file (some dir)
          update_mtime old_parent
          update_mtime dir
      ]
  ]

-- `Directory::Handle::removeChild`. A mount point is dropped from the cache alone.
unfoldable pub remove_child : FileId → Name → M (Unit {0})
remove_child dir name = do
  d ← load_dir dir
  elim (find_cached name d.dcache) [
    | none ↦ do remove_entry dir name; update_mtime dir
    | some c ↦
        if is_mount c.kind
        then store_dir dir (record d { dcache = erase_cached name d.dcache })
        else do
          remove_entry dir name
          set_parent c.file none
          d' ← load_dir dir
          store_dir dir (record d' { dcache = erase_cached name d'.dcache })
          update_mtime dir
  ]

-- `Directory::Handle::getName`
unfoldable pub get_name : FileId → FileId → M Name
get_name dir file = do d ← load_dir dir; pure (Entries.get_name file d.entries)

-- `Directory::Handle::getNumEntries`
unfoldable pub get_num_entries : FileId → M ℕ
get_num_entries dir = do d ← load_dir dir; pure (length d.entries + length (mounts d.dcache))

-- The entries of the vector, as `getEntries` lists them.
unfoldable pub list_entries : Entries → M (List Entry)
list_entries [] = pure []
list_entries (e ∷ es) = do
  n ← load e.child
  rest ← list_entries es
  pure (record { name = e.name; kind = kind_of n.body; ino = e.child } ∷ rest)

unfoldable pub list_mounts : DCache → M (List Entry)
list_mounts [] = pure []
list_mounts (c ∷ cs) = do
  n ← load c.file
  rest ← list_mounts cs
  pure (record { name = c.name; kind = kind_of n.body; ino = c.file } ∷ rest)

-- `Directory::Handle::getEntries`: the entries, then the mount points.
unfoldable pub get_entries : FileId → M (List Entry)
get_entries dir = do
  d ← load_dir dir
  own ← list_entries d.entries
  mounted ← list_mounts (mounts d.dcache)
  pure (own ++ mounted)
