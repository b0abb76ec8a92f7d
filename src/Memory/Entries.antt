-- ===== src/Memory/Entries.antt =====
-- `MemoryDirectory::entries`, a vector of names and children, and the `std::map` that a directory
-- keeps as its dcache. A child is the number that stands for its `File` object.
pub mod Laws
use emscripten_memfswasm_wra.Base.{
  ℕ, Bool, Option, none, some, List, [], ◌∷◌, ◌++◌, ◌==◌, if◌then◌else◌,
}
use emscripten_memfswasm_wra.Base.Names.{Name, name_eq, name_lt}

-- `MemoryDirectory::ChildEntry`
pub record ChildEntry : Type 0 where
  pub name : Name
  pub child : ℕ

abbrev pub Entries : Type 0
Entries = List ChildEntry

-- `findEntry` and the child that `getChild` takes from it.
unfoldable pub find_entry : Name → Entries → Option ℕ
find_entry name [] = none
find_entry name (e ∷ es) = if name_eq e.name name then some e.child else find_entry name es

-- `insertChild`: the caller has made sure that the name is new.
unfoldable pub insert_child : Name → ℕ → Entries → Entries
insert_child name child es = es ++ (record { name = name; child = child } ∷ [])

-- `entries.erase(findEntry(name))`, and nothing if there is no such entry.
unfoldable pub erase_entry : Name → Entries → Entries
erase_entry name [] = []
erase_entry name (e ∷ es) = if name_eq e.name name then es else e ∷ erase_entry name es

-- The loop in `insertMove`, which erases the first entry whose child is the file.
unfoldable pub erase_file : ℕ → Entries → Entries
erase_file file [] = []
erase_file file (e ∷ es) = if e.child == file then es else e ∷ erase_file file es

-- `MemoryDirectory::getName`
unfoldable pub get_name : ℕ → Entries → Name
get_name file [] = []
get_name file (e ∷ es) = if e.child == file then e.name else get_name file es

-- `Directory::DCacheKind`
pub data DCacheKind : Type 0 where
  normal mount : DCacheKind

-- An element of the dcache: the key, and the `DCacheEntry`.
pub record Cached : Type 0 where
  pub name : Name
  pub kind : DCacheKind
  pub file : ℕ

abbrev pub DCache : Type 0
DCache = List Cached

-- `dcache.find(name)`
unfoldable pub find_cached : Name → DCache → Option Cached
find_cached name [] = none
find_cached name (c ∷ cs) = if name_eq c.name name then some c else find_cached name cs

-- `dcache.insert` of a key that is not there: the map stays sorted by its keys.
unfoldable pub insert_cached : Cached → DCache → DCache
insert_cached c [] = c ∷ []
insert_cached c (d ∷ ds) = if name_lt c.name d.name then c ∷ d ∷ ds else d ∷ insert_cached c ds

-- `it->second = entry` at a key that is there.
unfoldable pub assign_cached : Cached → DCache → DCache
assign_cached c [] = []
assign_cached c (d ∷ ds) = if name_eq d.name c.name then c ∷ ds else d ∷ assign_cached c ds

-- `dcache.erase(it)`
unfoldable pub erase_cached : Name → DCache → DCache
erase_cached name [] = []
erase_cached name (c ∷ cs) = if name_eq c.name name then cs else c ∷ erase_cached name cs

-- The `find_if` of `insertMove`: the first element whose file is the given one.
unfoldable pub find_cached_file : ℕ → DCache → Option Cached
find_cached_file file [] = none
find_cached_file file (c ∷ cs) = if c.file == file then some c else find_cached_file file cs

-- The mount points of a dcache, in the order of the map.
unfoldable pub mounts : DCache → DCache
mounts [] = []
mounts (c ∷ cs) = elim c.kind [ normal ↦ mounts cs | mount ↦ c ∷ mounts cs ]
