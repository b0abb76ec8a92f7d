-- ===== src/Store.antt =====
-- The state of one instance: the `File` objects of wasmfs/file.h with their fields, the open files
-- and the file table of wasmfs/file_table.h, and the `WasmFS` singleton of wasmfs/wasmfs.h. Then
-- the monad of the calls on it, and the accessors of `File::Handle`.
--
-- A pointer to an object is the number under which the state holds it, and `getIno`, which casts
-- the pointer, is that number. Objects are not given back: a `shared_ptr` keeps what is in use,
-- and what is not in use is not reached. The instance has one thread, so locks do nothing.
pub mod Bind
pub mod Ends
pub mod Cases
use emscripten_memfswasm_wra.Base.{
  ℕ, ◌+◌, ◌-◌, Bool, true, false, Option, none, some, List, ◌==◌, if◌then◌else◌, bit_and, bit_or,
}
use emscripten_memfswasm_wra.Base.Names.{Name}
use emscripten_memfswasm_wra.Posix.{s_ifmt}
use emscripten_memfswasm_wra.Memory.DataFile.{Bytes}
use emscripten_memfswasm_wra.Memory.Entries.{Entries, DCache}

abbrev pub FileId : Type 0
FileId = ℕ

-- `File::FileKind`
pub data FileKind : Type 0 where
  unknown_kind data_file_kind directory_kind symlink_kind : FileKind

-- The classes derived from `DataFile`. A `PipeFile` holds the number of its `PipeData`.
pub data DataImpl : Type 0 where
  memory_file : Bytes → DataImpl
  null_file stdin_file stdout_file stderr_file random_file : DataImpl
  pipe_file : ℕ → DataImpl

-- What a `MemoryDirectory` holds: its own entries, and the dcache of `Directory`.
pub record Dir : Type 0 where
  pub entries : Entries
  pub dcache : DCache

pub data Body : Type 0 where
  data_file : DataImpl → Body
  directory : Dir → Body
  symlink : Name → Body

-- Times are milliseconds since the epoch, as whole numbers.
pub record File : Type 0 where
  pub body : Body
  pub mode : ℕ
  pub atime : ℕ
  pub mtime : ℕ
  pub ctime : ℕ
  pub parent : Option FileId
  pub backend : ℕ
  pub seekable : Bool

-- `Directory::Entry`
pub record Entry : Type 0 where
  pub name : Name
  pub kind : FileKind
  pub ino : ℕ

-- `OpenFileState`. The position is an `off_t`, held as its 64-bit word.
pub record OpenFile : Type 0 where
  pub file : FileId
  pub position : ℕ
  pub flags : ℕ
  pub uses : ℕ
  pub dirents : List Entry

-- The functions that the instance imports. The first argument numbers the calls, since the host
-- may answer differently each time.
pub record Host : Type 0 where
  pub date_now : ℕ → ℕ
  pub read_stdin : ℕ → ℕ → ℕ → Bytes × ℕ
  pub write_stdout : ℕ → Bytes → ℕ → ℕ
  pub write_stderr : ℕ → Bytes → ℕ → ℕ
  pub getentropy : ℕ → ℕ → Bytes

-- What was handed to `write_stdout` (1) or `write_stderr` (2).
pub record Sent : Type 0 where
  pub stream : ℕ
  pub bytes : Bytes
  pub offset : ℕ

pub record Fs : Type 0 where
  pub host : Host
  pub calls : ℕ
  pub sent : List Sent
  pub files : ℕ → Option File
  pub next_file : ℕ
  pub pipes : ℕ → Bytes
  pub next_pipe : ℕ
  pub opens : ℕ → Option OpenFile
  pub next_open : ℕ
  pub table : List (Option ℕ)
  pub root : FileId
  pub cwd : FileId

-- The end of a call. `fail` is an early return of an error, with what was changed before it.
-- `fault` is undefined behaviour or an abort, and `out_of_fuel` a loop that was cut off.
pub data Out (A : Type 0) : Type 0 where
  done : A → Fs → Out A
  fail : ℕ → Fs → Out A
  fault : Out A
  out_of_fuel : Out A

abbrev pub M : Type 0 → Type 0
M A = Fs → Out A

module _ {A : Type 0} where
  abbrev pub pure : A → M A
  pure a s = done a s

  abbrev pub throw : ℕ → M A
  throw e s = fail e s

  abbrev pub crash : M A
  crash s = fault

  abbrev pub gets : (Fs → A) → M A
  gets f s = done (f s) s

module _ {A B : Type 0} where
  abbrev pub and_then : Out A → (A → M B) → Out B
  and_then (done a s) f = f a s
  and_then (fail e s) f = fail e s
  and_then fault f = fault
  and_then out_of_fuel f = out_of_fuel

  infixl 5 ◌>>=◌ ◌>>◌
  abbrev pub ◌>>=◌ : M A → (A → M B) → M B
  ◌>>=◌ m f s = and_then (m s) f

  abbrev pub ◌>>◌ : M A → M B → M B
  ◌>>◌ m k s = and_then (m s) (λ _. k)

abbrev pub modify : (Fs → Fs) → M (Unit {0})
modify f s = done tt (f s)

abbrev pub throw_if : Bool → ℕ → M (Unit {0})
throw_if c e s = if c then fail e s else done tt s

-- The result of a call whose error the caller looks at.
pub data Result (A : Type 0) : Type 0 where
  value : A → Result A
  error : ℕ → Result A

abbrev pub attempt : {A : Type 0} → M A → M (Result A)
attempt m s = elim (m s) [
  | done a t ↦ done (value a) t
  | fail e t ↦ done (error e) t
  | fault ↦ fault
  | out_of_fuel ↦ out_of_fuel
]

-- A map at one key.
abbrev pub update {ℓ} : {A : Type ℓ} → (ℕ → A) → ℕ → A → ℕ → A
update f k v j = if j == k then v else f j

-- Reading and writing the object behind a pointer.
unfoldable pub load : FileId → M File
load f s = elim (s.files f) [ none ↦ fault | some n ↦ done n s ]

unfoldable pub store : FileId → File → M (Unit {0})
store f n s = done tt (record s { files = update s.files f (some n) })

-- `std::make_shared` of a file.
unfoldable pub make_file : File → M FileId
make_file n s =
    done s.next_file
      (record s { files = update s.files s.next_file (some n); next_file = s.next_file + 1 })

unfoldable pub load_open : ℕ → M OpenFile
load_open o s = elim (s.opens o) [ none ↦ fault | some n ↦ done n s ]

unfoldable pub store_open : ℕ → OpenFile → M (Unit {0})
store_open o n s = done tt (record s { opens = update s.opens o (some n) })

-- `emscripten_date_now()`
unfoldable pub date_now : M ℕ
date_now s = done (s.host.date_now s.calls) (record s { calls = s.calls + 1 })

abbrev pub kind_of : Body → FileKind
kind_of (data_file _) = data_file_kind
kind_of (directory _) = directory_kind
kind_of (symlink _) = symlink_kind

abbrev pub is_directory : Body → Bool
is_directory (directory _) = true
is_directory _ = false

abbrev pub is_data_file : Body → Bool
is_data_file (data_file _) = true
is_data_file _ = false

-- `File::Handle`. The parent is a weak pointer, which the program finds null once the last pointer to
-- the directory is gone; here no object is freed.
unfoldable pub get_parent : FileId → M (Option FileId)
unfolding load
get_parent f = do n ← load f; pure n.parent

unfoldable pub set_parent : FileId → Option FileId → M (Unit {0})
unfolding load store
set_parent f p = do n ← load f; store f (record n { parent = p })

unfoldable pub get_mode : FileId → M ℕ
unfolding load
get_mode f = do n ← load f; pure n.mode

-- The type bits can never be changed.
unfoldable pub set_mode : FileId → ℕ → M (Unit {0})
unfolding load store
set_mode f mode = do
  n ← load f
  store f (record n { mode = bit_or (bit_and n.mode s_ifmt) (bit_and mode (0xffffffff - s_ifmt)) })

unfoldable pub set_atime : FileId → ℕ → M (Unit {0})
unfolding load store
set_atime f t = do n ← load f; store f (record n { atime = t })

unfoldable pub set_mtime : FileId → ℕ → M (Unit {0})
unfolding load store
set_mtime f t = do n ← load f; store f (record n { mtime = t })

unfoldable pub set_ctime : FileId → ℕ → M (Unit {0})
unfolding load store
set_ctime f t = do n ← load f; store f (record n { ctime = t })

unfoldable pub update_mtime : FileId → M (Unit {0})
unfolding date_now set_mtime
update_mtime f = do t ← date_now; set_mtime f t

unfoldable pub update_ctime : FileId → M (Unit {0})
unfolding date_now set_ctime
update_ctime f = do t ← date_now; set_ctime f t

unfoldable pub get_backend : FileId → M ℕ
unfolding load
get_backend f = do n ← load f; pure n.backend
