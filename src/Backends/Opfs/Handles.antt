-- ===== src/Backends/Opfs/Handles.antt =====
-- The handles of `OpenState` in wasmfs/backends/opfs_backend.cpp, over any sequence of opens and
-- closes.
use emscripten_memfswasm_wra.Base.{
  ℕ, ◌+◌, ◌^◌, ◌<◌, ◌≡◌, ◌≢◌, ◌⊎◌, refl, true, false, List, [], ◌∷◌, arith,
}
use emscripten_memfswasm_wra.Posix.{o_rdonly, o_wronly, o_rdwr}
use emscripten_memfswasm_wra.Backends.Embedder.{
  Handle, access, blob, live, Answer, ok, negative, returned, refused, unreachable, Opens,
  after_open, after_close,
}
use emscripten_memfswasm_wra.Backends.Opfs.{
  OpfsHost, Kind, none_kind, access_kind, blob_kind, OpenState, wants_write, open_access, open_blob,
  close_blob, close_access, first_open, upgrade, open_state, close_state,
}

-- A state is seen as so many opens: without one it has no handle, and else it has the one that is
-- live, which is an access handle exactly if the file is open for writing.
abbrev pub Shows : Kind → Answer ℕ → Opens → List Handle → Type 0
Shows none_kind i a handles = (a.count ≡ 0) × (a.writable ≡ false) × (handles ≡ [])
Shows access_kind (ok h) a handles = (0 < a.count) × (a.writable ≡ true) × (handles ≡ access h ∷ [])
Shows blob_kind (ok h) a handles = (0 < a.count) × (a.writable ≡ false) × (handles ≡ blob h ∷ [])
Shows access_kind (negative e) a handles = ⊥
Shows blob_kind (negative e) a handles = ⊥

abbrev pub Implements : OpenState → Opens → Type 0
Implements st a = (st.open_count ≡ a.count) × Shows st.kind st.id a (live st.log)

-- The access modes of an open.
abbrev pub IsMode : ℕ → Type 0
IsMode flags = (flags ≡ o_rdonly) ⊎ ((flags ≡ o_wronly) ⊎ (flags ≡ o_rdwr))

-- The states that a new file goes through, with what its users have seen.
pub data Reached (host : OpfsHost) (file : ℕ) : OpenState → Opens → Type 0 where
  start :
      Reached host file
        (record { kind = none_kind; id = negative 1; open_count = 0; calls = 0; log = [] })
        (record { count = 0; writable = false })
  open_done :
      (st t : OpenState) (a : Opens) (flags : ℕ)
      → Reached host file st a
      → IsMode flags
      → a.count + 1 < 2 ^ 32
      → open_state host file flags st ≡ returned tt t
      → Reached host file t (after_open (wants_write flags) a)
  open_refused :
      (st t : OpenState) (a : Opens) (flags e : ℕ)
      → Reached host file st a
      → IsMode flags
      → open_state host file flags st ≡ refused e t
      → Reached host file t a
  close_done :
      (st t : OpenState) (a : Opens) (err : Answer (Unit {0}))
      → Reached host file st a
      → 0 < a.count
      → close_state host st ≡ returned err t
      → Reached host file t (after_close a)

module _ (host : OpfsHost) (file : ℕ) (st : OpenState) (a : Opens) (h : Implements st a) where
  open_lem :
      (flags : ℕ) (t : OpenState)
      → IsMode flags
      → a.count + 1 < 2 ^ 32
      → open_state host file flags st ≡ returned tt t
      → Implements t (after_open (wants_write flags) a)
  unfolding open_state first_open upgrade open_access open_blob close_blob
  open_lem flags t mode room e = ground (arith, mode, h)

  refused_lem :
      (flags e : ℕ) (t : OpenState)
      → IsMode flags
      → open_state host file flags st ≡ refused e t
      → Implements t a
  unfolding open_state first_open upgrade open_access open_blob close_blob
  refused_lem flags e t mode r = ground (arith, mode, h)

  close_lem :
      (err : Answer (Unit {0})) (t : OpenState)
      → 0 < a.count
      → close_state host st ≡ returned err t
      → Implements t (after_close a)
  unfolding close_state close_access close_blob
  close_lem err t pos r = ground (arith, h, pos)

  pub open_total : (flags : ℕ) → IsMode flags → open_state host file flags st ≢ unreachable
  unfolding open_state first_open upgrade open_access open_blob close_blob
  open_total flags mode e = ground (arith, mode, h)

  pub close_total : 0 < a.count → close_state host st ≢ unreachable
  unfolding close_state close_access close_blob
  close_total pos e = ground (arith, h, pos)

-- After any sequence of opens, refused or not, and closes of what was opened, a file has as many
-- opens as the users count, and one live handle if there is one, and else none. The handle is an
-- access handle exactly if an open since the last time the file was closed is for writing.
pub reached-Implements :
    (host : OpfsHost) (file : ℕ) (st : OpenState) (a : Opens)
    → Reached host file st a
    → Implements st a
reached-Implements host file st a start = (refl, (refl, refl, refl))
reached-Implements host file st a (open_done s t b flags before mode room r) =
    open_lem host file s b (reached-Implements host file s b before) flags t mode room r
reached-Implements host file st a (open_refused s t b flags e before mode r) =
    refused_lem host file s b (reached-Implements host file s b before) flags e t mode r
reached-Implements host file st a (close_done s t b err before pos r) =
    close_lem host file s b (reached-Implements host file s b before) err t pos r
