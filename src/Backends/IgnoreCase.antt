-- ===== src/Backends/IgnoreCase.antt =====
-- The backend that ignores the case of names: wasmfs/backends/ignore_case_backend.cpp, over the
-- virtual files of wasmfs/virtual.h, on a real backend that is the memory backend. The methods here
-- are those that the handles of the virtual directories call; the real directories are used through
-- their handles.
--
-- `tolower` of the C library is the parameter `lower`. A `std::map` is the list of its entries, with
-- one for a key.
pub mod Names
use emscripten_memfswasm_wra.Base.{
  ℕ, ◌+◌, Bool, true, false, Option, none, some, List, [], ◌∷◌, ◌==◌, if◌then◌else◌,
}
use emscripten_memfswasm_wra.Base.Names.{Name, name_eq}
use emscripten_memfswasm_wra.Posix.{s_iflnk}
use emscripten_memfswasm_wra.Store.{
  FileId, FileKind, data_file_kind, directory_kind, symlink_kind, kind_of, Body, data_file,
  directory, symlink, File, Entry, Fs, M, done, fail, fault, out_of_fuel, update, load, set_parent,
}
use emscripten_memfswasm_wra.Files
use emscripten_memfswasm_wra.Directory
use emscripten_memfswasm_wra.Backends.Embedder.{
  Ended, returned, refused, unreachable, Act, pure, refuse, never, ◌>>=◌, ◌>>◌,
}

-- `ChildInfo` with its key, the normalized name.
pub record ChildInfo : Type 0 where
  pub key : Name
  pub original_name : Name
  pub child : ℕ

abbrev pub Children : Type 0
Children = List ChildInfo

unfoldable pub find_child : Name → Children → Option ChildInfo
find_child key [] = none
find_child key (c ∷ cs) = if name_eq c.key key then some c else find_child key cs

-- `children[key] = {name, child}`
unfoldable pub assign_child : ChildInfo → Children → Children
assign_child info [] = info ∷ []
assign_child info (c ∷ cs) = if name_eq c.key info.key then info ∷ cs else c ∷ assign_child info cs

unfoldable pub erase_child : Name → Children → Children
erase_child key [] = []
erase_child key (c ∷ cs) = if name_eq c.key key then cs else c ∷ erase_child key cs

-- The loop that deletes the first entry of a file.
unfoldable pub erase_file : ℕ → Children → Children
erase_file file [] = []
erase_file file (c ∷ cs) = if c.child == file then cs else c ∷ erase_file file cs

-- The loop of `getName`
unfoldable pub name_of : ℕ → Children → Name
name_of file [] = []
name_of file (c ∷ cs) = if c.child == file then c.original_name else name_of file cs

-- A virtual file: a `VirtualDataFile`, an `IgnoreCaseDirectory` or a `VirtualSymlink`.
pub record Virtual : Type 0 where
  pub kind : FileKind
  pub mode : ℕ
  pub real : FileId
  pub parent : Option ℕ
  pub children : Children

pub record Icase : Type 0 where
  pub real : Fs
  pub files : ℕ → Option Virtual
  pub next : ℕ

abbrev pub from_out : {A : Type 0} → M A → Act Icase A
from_out m st = elim (m st.real) [
  | done a s ↦ returned a (record st { real = s })
  | fail e s ↦ refused e (record st { real = s })
  | fault ↦ unreachable
  | out_of_fuel ↦ unreachable
]

unfoldable pub load_virtual : ℕ → Act Icase Virtual
load_virtual f st = elim (st.files f) [ none ↦ unreachable | some v ↦ returned v st ]

unfoldable pub store_virtual : ℕ → Virtual → Act Icase (Unit {0})
store_virtual f v st = returned tt (record st { files = update st.files f (some v) })

unfoldable pub set_virtual_parent : ℕ → Option ℕ → Act Icase (Unit {0})
set_virtual_parent f p = do v ← load_virtual f; store_virtual f (record v { parent = p })

unfoldable pub make_virtual : Virtual → Act Icase ℕ
make_virtual v st =
    returned st.next (record st { files = update st.files st.next (some v); next = st.next + 1 })

-- `virtualize`. A symlink has the mode that its constructor sets.
abbrev pub virtual_mode : File → ℕ
virtual_mode n = elim n.body [ data_file _ ↦ n.mode | directory _ ↦ n.mode | symlink _ ↦ s_iflnk ]

unfoldable pub virtualize : FileId → Act Icase ℕ
virtualize real = do
  n ← from_out (load real)
  make_virtual (record {
    kind = kind_of n.body;
    mode = virtual_mode n;
    real = real;
    parent = none;
    children = [];
  })

-- `devirtualize`
unfoldable pub devirtualize : ℕ → Act Icase FileId
devirtualize file = do v ← load_virtual file; pure v.real

-- `children[normalized] = {name, child}` of a directory
unfoldable pub record_child : ℕ → Name → Name → ℕ → Act Icase (Unit {0})
record_child dir key name child = do
  d ← load_virtual dir
  store_virtual dir (record d {
    children = assign_child (record { key = key; original_name = name; child = child }) d.children;
  })

module _ (lower : ℕ → ℕ) where
  unfoldable pub normalize : Name → Name
  normalize [] = []
  normalize (c ∷ cs) = lower c ∷ normalize cs

  -- A real file that was found or inserted becomes the child under a name.
  unfoldable pub adopt : ℕ → Name → Option FileId → Act Icase (Option ℕ)
  adopt dir name none = pure none
  adopt dir name (some real) = do
    child ← virtualize real
    record_child dir (normalize name) name child
    pure (some child)

  unfoldable pub get_child : ℕ → Name → Act Icase (Option ℕ)
  get_child dir name = do
    d ← load_virtual dir
    elim (find_child (normalize name) d.children) [
      | some info ↦ pure (some info.child)
      | none ↦ do
        found ← from_out (Directory.get_child d.real (normalize name))
        adopt dir name found
    ]

  unfoldable pub insert_data_file : ℕ → Name → ℕ → Act Icase (Option ℕ)
  insert_data_file dir name mode = do
    d ← load_virtual dir
    made ← from_out (Directory.insert_data_file d.real (normalize name) mode)
    adopt dir name made

  unfoldable pub insert_directory : ℕ → Name → ℕ → Act Icase (Option ℕ)
  insert_directory dir name mode = do
    d ← load_virtual dir
    made ← from_out (Directory.insert_directory d.real (normalize name) mode)
    adopt dir name made

  unfoldable pub insert_symlink : ℕ → Name → Name → Act Icase (Option ℕ)
  insert_symlink dir name target = do
    d ← load_virtual dir
    made ← from_out (Directory.insert_symlink d.real (normalize name) target)
    adopt dir name made

  unfoldable pub insert_move : ℕ → Name → ℕ → Act Icase (Unit {0})
  insert_move dir name file = do
    d ← load_virtual dir
    real ← devirtualize file
    from_out (Directory.insert_move d.real (normalize name) real)
    v ← load_virtual file
    elim v.parent [
      | none ↦ never
      | some old_parent ↦ do
        old ← load_virtual old_parent
        store_virtual old_parent (record old { children = erase_file file old.children })
        d' ← load_virtual dir
        elim (find_child (normalize name) d'.children) [
          | none ↦ pure tt
          | some overwritten ↦ set_virtual_parent overwritten.child none
        ]
        record_child dir (normalize name) name file
    ]

  -- A name without an entry would be an iterator past the end.
  unfoldable pub remove_child : ℕ → Name → Act Icase (Unit {0})
  remove_child dir name = do
    d ← load_virtual dir
    from_out (Directory.remove_child d.real (normalize name))
    elim (find_child (normalize name) d.children) [
      | none ↦ never
      | some info ↦ do
        set_virtual_parent info.child none
        d' ← load_virtual dir
        store_virtual dir (record d' { children = erase_child (normalize name) d'.children })
    ]

-- `getNumEntries`, `getEntries` and `getName`
unfoldable pub get_num_entries : ℕ → Act Icase ℕ
get_num_entries dir = do d ← load_virtual dir; from_out (Directory.get_num_entries d.real)

unfoldable pub original_names : Children → List Entry → List Entry
original_names children [] = []
original_names children (e ∷ es) = elim (find_child e.name children) [
  | none ↦ e ∷ original_names children es
  | some info ↦ record e { name = info.original_name } ∷ original_names children es
]

unfoldable pub get_entries : ℕ → Act Icase (List Entry)
get_entries dir = do
  d ← load_virtual dir
  entries ← from_out (Directory.get_entries d.real)
  pure (original_names d.children entries)

unfoldable pub get_name : ℕ → ℕ → Act Icase Name
get_name dir file = do d ← load_virtual dir; pure (name_of file d.children)

-- `IgnoreCaseBackend` over the backend `real_backend`. The real root becomes its own parent.
unfoldable pub create_file : ℕ → ℕ → Act Icase ℕ
create_file real_backend mode = do
  real ← from_out (Files.create_file real_backend mode)
  virtualize real

unfoldable pub create_directory : ℕ → ℕ → Act Icase ℕ
create_directory real_backend mode = do
  real ← from_out (Files.create_directory real_backend mode)
  from_out (set_parent real (some real))
  virtualize real

unfoldable pub create_symlink : ℕ → Name → Act Icase ℕ
create_symlink real_backend target = do
  real ← from_out (Files.create_symlink real_backend target)
  virtualize real
