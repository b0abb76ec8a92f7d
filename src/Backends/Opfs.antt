-- ===== src/Backends/Opfs.antt =====
-- The backend over the origin private file system: wasmfs/backends/opfs_backend.cpp. The calls
-- `_wasmfs_opfs_*` of the JavaScript library are the parameter.
--
-- `OpenState` and the object that holds it are one record here, with the log of the calls that open
-- and close a handle. The proxy runs each call in order.
pub mod Handles
pub mod Objects
pub mod Transfers
use emscripten_memfswasm_wra.Base.{
  ℕ, ◌+◌, ◌-◌, ◌%◌, ◌^◌, Bool, true, false, ◌||◌, Option, none, some, List, [], ◌∷◌, ◌==◌,
  if◌then◌else◌, length,
}
use emscripten_memfswasm_wra.Base.Names.{Name}
use emscripten_memfswasm_wra.Posix.{o_rdonly, o_wronly, o_rdwr, eio, ebusy}
use emscripten_memfswasm_wra.Memory.DataFile.{Bytes}
use emscripten_memfswasm_wra.Store.{FileKind, Entry}
use emscripten_memfswasm_wra.Backends.Embedder.{
  Handle, access, blob, Event, opened, closed, Log, Answer, ok, negative, Ended, more, fewer,
  returned, refused, unreachable, Act, pure, refuse, never, check, ◌>>=◌, ◌>>◌,
}

-- The functions of the JavaScript library, with the number of the call first.
pub record OpfsHost : Type 0 where
  pub open_access : ℕ → ℕ → Answer ℕ
  pub open_blob : ℕ → ℕ → Answer ℕ
  pub close_access : ℕ → ℕ → Answer (Unit {0})
  pub get_size_file : ℕ → ℕ → ℕ
  pub get_size_access : ℕ → ℕ → ℕ
  pub get_size_blob : ℕ → ℕ → ℕ
  pub set_size_file : ℕ → ℕ → ℕ → Answer (Unit {0})
  pub set_size_access : ℕ → ℕ → ℕ → Answer (Unit {0})
  pub read_access : ℕ → ℕ → ℕ → ℕ → Answer Bytes
  pub read_blob : ℕ → ℕ → ℕ → ℕ → Answer Bytes
  pub write_access : ℕ → ℕ → Bytes → ℕ → Answer ℕ
  pub flush_access : ℕ → ℕ → Answer (Unit {0})
  pub get_child : ℕ → ℕ → Name → ℕ × Answer ℕ
  pub insert_file : ℕ → ℕ → Name → Answer ℕ
  pub insert_directory : ℕ → ℕ → Name → Answer ℕ
  pub move_file : ℕ → ℕ → ℕ → Name → Answer (Unit {0})
  pub remove_child : ℕ → ℕ → Name → Answer (Unit {0})
  pub get_entries : ℕ → ℕ → Answer (List Entry)

-- `OpenState::Kind`
pub data Kind : Type 0 where
  none_kind access_kind blob_kind : Kind

-- `OpenState`, with what was done so far.
pub record OpenState : Type 0 where
  pub kind : Kind
  pub id : Answer ℕ
  pub open_count : ℕ
  pub calls : ℕ
  pub log : Log

-- A call of the library on the state.
abbrev pub ask : {A : Type 0} → (ℕ → A) → Act OpenState A
ask f st = returned (f st.calls) (record st { calls = st.calls + 1 })

abbrev pub note : Event → Act OpenState (Unit {0})
note e st = returned tt (record st { log = e ∷ st.log })

abbrev pub set_id : Answer ℕ → Act OpenState (Unit {0})
set_id i st = returned tt (record st { id = i })

abbrev pub set_kind : Kind → Act OpenState (Unit {0})
set_kind k st = returned tt (record st { kind = k })

abbrev pub count_open : Act OpenState (Unit {0})
count_open st = returned tt (record st { open_count = more st.open_count })

abbrev pub wants_write : ℕ → Bool
wants_write flags = (flags == o_wronly) || (flags == o_rdwr)

module _ (host : OpfsHost) where
  -- A handle that is opened stands in the log.
  unfoldable pub open_access : ℕ → Act OpenState (Answer ℕ)
  open_access file = do
    answer ← ask (λ k. host.open_access k file)
    elim answer [ ok h ↦ do note (opened (access h)); pure (ok h) | negative e ↦ pure (negative e) ]

  unfoldable pub open_blob : ℕ → Act OpenState (Answer ℕ)
  open_blob file = do
    answer ← ask (λ k. host.open_blob k file)
    elim answer [ ok h ↦ do note (opened (blob h)); pure (ok h) | negative e ↦ pure (negative e) ]

  unfoldable pub close_blob : Answer ℕ → Act OpenState (Unit {0})
  close_blob (ok h) = do ask (λ k. k); note (closed (blob h))
  close_blob (negative e) = never

  unfoldable pub close_access : Answer ℕ → Act OpenState (Answer (Unit {0}))
  close_access (ok h) = do
    answer ← ask (λ k. host.close_access k h)
    note (closed (access h))
    pure answer
  close_access (negative e) = never

  -- The first open: the identity is set before it is looked at.
  unfoldable pub first_open : ℕ → ℕ → Act OpenState (Unit {0})
  first_open file flags =
      if wants_write flags
      then (do i ← open_access file; set_id i; check i; set_kind access_kind)
      else if flags == o_rdonly
      then (do i ← open_blob file; set_id i; check i; set_kind blob_kind)
      else never

  -- A blob is replaced by an access handle.
  unfoldable pub upgrade : ℕ → Act OpenState (Unit {0})
  upgrade file = do
    new_id ← open_access file
    check new_id
    st ← (λ st. returned st st)
    close_blob st.id
    set_id new_id
    set_kind access_kind

  -- `OpenState::open`
  unfoldable pub open_state : ℕ → ℕ → Act OpenState (Unit {0})
  open_state file flags st = elim st.kind [
    | none_kind ↦ (do first_open file flags; count_open) st
    | access_kind ↦ count_open st
    | blob_kind ↦ if wants_write flags then (do upgrade file; count_open) st else count_open st
  ]

  -- `OpenState::close`
  unfoldable pub close_state : Act OpenState (Answer (Unit {0}))
  close_state st =
      let left : OpenState = record st { open_count = fewer st.open_count } in
      if left.open_count == 0
      then (do
        err ← elim st.kind [
          | access_kind ↦ close_access st.id
          | blob_kind ↦ do close_blob st.id; pure (ok tt)
          | none_kind ↦ never
        ]
        set_kind none_kind
        set_id (negative 1)
        pure err)
          left
      else returned (ok tt) left
