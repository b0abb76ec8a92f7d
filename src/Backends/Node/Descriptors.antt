-- ===== src/Backends/Node/Descriptors.antt =====
-- The descriptors of `NodeState` in wasmfs/backends/node_backend.cpp, over any sequence of opens and
-- closes.
use emscripten_memfswasm_wra.Base.{
  ℕ, ◌+◌, ◌-◌, ◌^◌, ◌<◌, ◌≡◌, ◌≢◌, ◌⊎◌, inl, inr, refl, List, [], ◌∷◌, ◌==◌, arith, Bool-cases,
  ==_iff,
}
use emscripten_memfswasm_wra.Base.Names.{Name}
use emscripten_memfswasm_wra.Backends.Embedder.{
  Handle, descriptor, live, Answer, ok, negative, returned, refused, unreachable,
}
use emscripten_memfswasm_wra.Backends.Opfs.Handles.{IsMode}
use emscripten_memfswasm_wra.Backends.Node.{
  NodeHost, NodeState, node_open, node_close, open_state, close_state,
}

-- Without an open there is no live descriptor, and else the one of the state.
abbrev pub Holds : ℕ → Answer ℕ → List Handle → Type 0
Holds count (negative e) handles = (count ≡ 0) × (handles ≡ [])
Holds count (ok h) handles = (0 < count) × (handles ≡ descriptor h ∷ [])

abbrev pub Implements : NodeState → ℕ → Type 0
Implements st count = (st.open_count ≡ count) × Holds count st.fd (live st.log)

abbrev pub new_state : Name → NodeState
new_state path = record {
  open_count = 0;
  open_flags = 0;
  fd = negative 1;
  path = path;
  calls = 0;
  log = [];
}

-- The states that a new file goes through, with the number of its opens.
pub data Reached (host : NodeHost) (path : Name) : NodeState → ℕ → Type 0 where
  start : Reached host path (new_state path) 0
  open_done :
      (st t : NodeState) (count flags : ℕ)
      → Reached host path st count
      → IsMode flags
      → count + 1 < 2 ^ 32
      → open_state host flags st ≡ returned tt t
      → Reached host path t (count + 1)
  open_refused :
      (st t : NodeState) (count flags e : ℕ)
      → Reached host path st count
      → IsMode flags
      → open_state host flags st ≡ refused e t
      → Reached host path t count
  close_done :
      (st t : NodeState) (count ret : ℕ)
      → Reached host path st count
      → 0 < count
      → close_state host st ≡ returned ret t
      → Reached host path t (count - 1)

module _ (host : NodeHost) (st : NodeState) (count : ℕ) (h : Implements st count) where
  open_lem :
      (flags : ℕ) (t : NodeState)
      → IsMode flags
      → count + 1 < 2 ^ 32
      → open_state host flags st ≡ returned tt t
      → Implements t (count + 1)
  unfolding open_state node_open node_close
  open_lem flags t mode room e = ground (arith, mode, h)

  refused_lem :
      (flags e : ℕ) (t : NodeState)
      → IsMode flags
      → open_state host flags st ≡ refused e t
      → Implements t count
  unfolding open_state node_open node_close
  refused_lem flags e t mode r = ground (arith, mode, h)

  close_lem :
      (ret : ℕ) (t : NodeState)
      → 0 < count
      → close_state host st ≡ returned ret t
      → Implements t (count - 1)
  unfolding close_state node_close
  close_lem ret t pos r = ground (arith, h, pos)

  open_total : (flags : ℕ) → IsMode flags → open_state host flags st ≢ unreachable
  unfolding open_state node_open node_close
  open_total flags mode e = ground (arith, mode, h)

  close_total : 0 < count → close_state host st ≢ unreachable
  unfolding close_state node_close
  close_total pos e = ground (arith, h, pos)

-- After any sequence of opens, refused or not, and closes of what was opened, a file has as many
-- opens as its users, and all of them share one live descriptor, which is there exactly while there
-- is an open.
pub node-Implements :
    (host : NodeHost) (path : Name) (st : NodeState) (count : ℕ)
    → Reached host path st count
    → Implements st count
node-Implements host path st count start = (refl, (refl, refl))
node-Implements host path st count (open_done s t k flags before mode room r) =
    open_lem host s k (node-Implements host path s k before) flags t mode room r
node-Implements host path st count (open_refused s t k flags e before mode r) =
    refused_lem host s k (node-Implements host path s k before) flags e t mode r
node-Implements host path st count (close_done s t k ret before pos r) =
    close_lem host s k (node-Implements host path s k before) ret t pos r

-- In any reached state, an open with an access mode reaches no unreachable statement, and neither
-- does a close if the file is open.
pub node_ends :
    (host : NodeHost) (path : Name) (st : NodeState) (count flags : ℕ)
    → Reached host path st count
    → IsMode flags
    → (open_state host flags st ≢ unreachable) × ((count ≡ 0) ⊎ (close_state host st ≢ unreachable))
node_ends host path st count flags r mode =
    let h = node-Implements host path st count r in
    (
      open_total host st count h flags mode,
      elim (Bool-cases (count == 0)) [
        | inl q ↦ inl ((==_iff count 0).0 q)
        | inr q ↦ inr (close_total host st count h (ground (arith, q)))
      ],
    )
