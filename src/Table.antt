-- ===== src/Table.antt =====
-- The file table of wasmfs/file_table.h and wasmfs/file_table.cpp: a vector of pointers to open
-- files, each with a count of its slots.
pub mod Laws
pub mod Uses
use emscripten_memfswasm_wra.Base.{
  ℕ, suc, ◌+◌, ◌-◌, ◌%◌, ◌^◌, Bool, true, false, Option, none, some, List, [], ◌∷◌, ◌++◌, length,
  get_elem?, set, drop, replicate, leb, ltb, ◌==◌, if◌then◌else◌, bit_and,
}
use emscripten_memfswasm_wra.Base.Names.{codes}
use emscripten_memfswasm_wra.Posix.{o_accmode, o_rdonly, o_wronly}
use emscripten_memfswasm_wra.Store.{
  FileId, FileKind, directory_kind, data_file, directory, symlink, is_data_file, Entry, OpenFile,
  Fs, M, done, pure, throw, crash, ◌>>=◌, ◌>>◌, modify, gets, load, get_parent, load_open,
  store_open,
}
use emscripten_memfswasm_wra.Files.{notify}
use emscripten_memfswasm_wra.Directory.{get_entries}

abbrev pub Slots : Type 0
Slots = List (Option ℕ)

-- The slot at `fd`, null where the vector has none.
abbrev pub slot : Slots → ℕ → Option ℕ
slot t fd = elim (get_elem? t fd) [ none ↦ none | some e ↦ e ]

-- `FileTable::Handle::getEntry`
unfoldable pub get_entry : ℕ → M (Option ℕ)
get_entry fd s = done (if leb (length s.table) fd then none else slot s.table fd) s

-- `entries.resize(fd + 1)`, with null pointers. The calls pass descriptors below 2^32 - 1, so that the
-- sum does not wrap.
unfoldable pub grow : ℕ → Slots → Slots
grow n t = t ++ replicate (n - length t) none

-- `++openFile->uses`, and the decrement, on an `int` held as its word.
unfoldable pub retain : Option ℕ → M (Unit {0})
retain none = pure tt
retain (some o) = do n ← load_open o; store_open o (record n { uses = (n.uses + 1) % 2 ^ 32 })

-- The slot's old open file gives up one use; its data file is returned if that was the last.
unfoldable pub release : Option ℕ → M (Option FileId)
release none = pure none
release (some o) = do
  n ← load_open o
  store_open o (record n { uses = (n.uses + (2 ^ 32 - 1)) % 2 ^ 32 })
  f ← load n.file
  pure (
      if (n.uses + (2 ^ 32 - 1)) % 2 ^ 32 == 0
      then (if is_data_file f.body then some n.file else none)
      else none)

-- `FileTable::Handle::setEntry`
unfoldable pub set_entry : ℕ → Option ℕ → M (Option FileId)
set_entry fd open_file = do
  modify
      (λ s. record s { table = if leb (length s.table) fd then grow (fd + 1) s.table else s.table })
  retain open_file
  old ← gets (λ s. slot s.table fd)
  closee ← release old
  modify (λ s. record s { table = set s.table fd open_file })
  pure closee

-- The index at which the loop of `addEntry` finds a free slot.
unfoldable pub free_slot : Slots → ℕ
free_slot [] = 0
free_slot (none ∷ t) = 0
free_slot (some o ∷ t) = suc (free_slot t)

-- `FileTable::Handle::addEntry`
unfoldable pub add_entry : ℕ → M ℕ
add_entry open_file = do fd ← gets (λ s. free_slot s.table); set_entry fd (some open_file); pure fd

-- `std::make_shared<OpenFileState>`
unfoldable pub make_open : OpenFile → M ℕ
make_open n s = done s.next_open (record s {
  opens = λ j. if j == s.next_open then some n else s.opens j;
  next_open = s.next_open + 1;
})

-- The entries of a directory at the moment it is opened. A directory with no parent is a null
-- pointer here.
unfoldable pub snapshot : FileId → M (List Entry)
snapshot dir = do
  parent ← get_parent dir
  elim parent [
    | none ↦ crash
    | some p ↦ do
      entries ← get_entries dir
      pure (
          record { name = codes "."; kind = directory_kind; ino = dir }
          ∷ record { name = codes ".."; kind = directory_kind; ino = p }
          ∷ entries)
  ]

-- `OpenFileState::create`
unfoldable pub create_open : FileId → ℕ → M ℕ
create_open file flags = do
  n ← load file
  dirents ← elim n.body [
    | data_file _ ↦ notify file >> pure []
    | directory _ ↦ snapshot file
    | symlink _ ↦ pure []
  ]
  make_open (record { file = file; position = 0; flags = flags; uses = 0; dirents = dirents })
