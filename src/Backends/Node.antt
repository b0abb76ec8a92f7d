-- ===== src/Backends/Node.antt =====
-- The backend over the file system of Node: wasmfs/backends/node_backend.cpp. The calls
-- `_wasmfs_node_*` of the JavaScript library are the parameter.
--
-- `NodeState` is one record here, with the log of the calls that open and close a descriptor.
pub mod Descriptors
pub mod Objects
use emscripten_memfswasm_wra.Base.{
  ℕ, ◌+◌, ◌-◌, ◌%◌, ◌^◌, Bool, true, false, ◌&&◌, ◌||◌, Option, none, some, List, [], ◌∷◌, ◌++◌,
  ◌==◌, if◌then◌else◌, length, bit_and,
}
use emscripten_memfswasm_wra.Base.Names.{Name, codes}
use emscripten_memfswasm_wra.Posix.{o_rdonly, o_wronly, o_rdwr, eisdir, s_ifmt, s_ifdir, s_ifreg}
use emscripten_memfswasm_wra.Memory.DataFile.{Bytes}
use emscripten_memfswasm_wra.Store.{Entry}
use emscripten_memfswasm_wra.Backends.Embedder.{
  Handle, descriptor, Event, opened, closed, Log, Answer, ok, negative, more, fewer, Ended,
  returned, refused, unreachable, Act, pure, refuse, never, check, ◌>>=◌, ◌>>◌,
}

-- The mode of an open of Node: `"r"`, `"w"` and `"r+"`.
pub data NodeMode : Type 0 where
  r w r_plus : NodeMode

-- The functions of the JavaScript library, with the number of the call first. All but `open` return
-- 0 or a positive error; a size or a mode is missing, or bytes are `negative`, where there is an error.
pub record NodeHost : Type 0 where
  pub open_file : ℕ → Name → NodeMode → Answer ℕ
  pub close : ℕ → ℕ → ℕ
  pub stat_size : ℕ → Name → Option ℕ
  pub fstat_size : ℕ → ℕ → Option ℕ
  pub read : ℕ → ℕ → ℕ → ℕ → Answer Bytes
  pub write : ℕ → ℕ → Bytes → ℕ → Answer ℕ
  pub get_mode : ℕ → Name → Option ℕ
  pub unlink : ℕ → Name → ℕ
  pub rmdir : ℕ → Name → ℕ
  pub insert_file : ℕ → Name → ℕ → ℕ
  pub insert_directory : ℕ → Name → ℕ → ℕ
  pub readdir : ℕ → Name → Answer (List Entry)

-- `NodeState`, with what was done so far.
pub record NodeState : Type 0 where
  pub open_count : ℕ
  pub open_flags : ℕ
  pub fd : Answer ℕ
  pub path : Name
  pub calls : ℕ
  pub log : Log

abbrev pub ask : {A : Type 0} → (ℕ → A) → Act NodeState A
ask f st = returned (f st.calls) (record st { calls = st.calls + 1 })

abbrev pub note : Event → Act NodeState (Unit {0})
note e st = returned tt (record st { log = e ∷ st.log })

abbrev pub count_open : Act NodeState (Unit {0})
count_open st = returned tt (record st { open_count = more st.open_count })

-- `fd = result; openFlags = flags; ++openCount;`
abbrev pub take_over : ℕ → ℕ → Act NodeState (Unit {0})
take_over result flags st =
    returned tt (record st { fd = ok result; open_flags = flags; open_count = more st.open_count })

-- Whether an open needs more access than the descriptor was opened with.
abbrev pub needs_more : ℕ → ℕ → Bool
needs_more open_flags flags =
    ((open_flags == o_rdonly) && ((flags == o_wronly) || (flags == o_rdwr)))
    || ((open_flags == o_wronly) && ((flags == o_rdonly) || (flags == o_rdwr)))

module _ (host : NodeHost) where
  -- A descriptor that is opened stands in the log.
  unfoldable pub node_open : NodeMode → Act NodeState ℕ
  node_open mode st =
      (do
        answer ← ask (λ k. host.open_file k st.path mode)
        elim answer [ ok h ↦ do note (opened (descriptor h)); pure h | negative e ↦ refuse e ])
        st

  -- What is closed is a descriptor that was opened.
  unfoldable pub node_close : Answer ℕ → Act NodeState ℕ
  node_close (ok h) = do ret ← ask (λ k. host.close k h); note (closed (descriptor h)); pure ret
  node_close (negative e) = never

  -- `NodeState::open`
  unfoldable pub open_state : ℕ → Act NodeState (Unit {0})
  open_state flags st =
      if st.open_count == 0
      then (do
        result ←
            if flags == o_rdonly
            then node_open r
            else if flags == o_wronly
            then node_open w
            else if flags == o_rdwr
            then node_open r_plus
            else never
        take_over result flags)
          st
      else if needs_more st.open_flags flags
      then (do result ← node_open r_plus; node_close st.fd; take_over result flags) st
      else count_open st

  -- `NodeState::close`: the state is as new after the last one.
  unfoldable pub close_state : Act NodeState ℕ
  close_state st =
      let left : NodeState = record st { open_count = fewer st.open_count } in
      if left.open_count == 0
      then (do
        ret ← node_close left.fd
        (λ st'. returned tt (record st' { open_count = 0; open_flags = 0; fd = negative 1 }))
        pure ret)
          left
      else returned 0 left
