-- ===== src/Backends/Opfs/Transfers.antt =====
-- The transfers of `OPFSFile` in wasmfs/backends/opfs_backend.cpp, while a file is open.
use emscripten_memfswasm_wra.Base.{ℕ, ◌<◌, ◌≡◌, ◌≢◌, ◌⊎◌, inl, inr, true, false, arith, Bool-cases}
use emscripten_memfswasm_wra.Posix.{eio}
use emscripten_memfswasm_wra.Memory.DataFile.{Bytes}
use emscripten_memfswasm_wra.Backends.Embedder.{Opens, refused, unreachable}
use emscripten_memfswasm_wra.Backends.Opfs.{
  OpfsHost, OpenState, access_kind, blob_kind, open_state, close_state,
}
use emscripten_memfswasm_wra.Backends.Opfs.Objects.{read, write, flush, get_size, set_size}
use emscripten_memfswasm_wra.Backends.Opfs.Handles.{
  IsMode, Implements, Reached, reached-Implements, open_total, close_total,
}

module _ (host : OpfsHost) (file : ℕ) (st : OpenState) (a : Opens) (h : Implements st a)
    (len offset size : ℕ) (buf : Bytes) (open_now : 0 < a.count) where
  read_lem : read host len offset st ≢ unreachable
  unfolding read
  read_lem e = ground (arith, h, open_now)

  write_lem : a.writable ≡ true → (st.kind ≡ access_kind) × (write host buf offset st ≢ unreachable)
  unfolding write
  write_lem w = (ground (arith, h, open_now, w), λ e. ground (arith, h, open_now, w))

  get_size_lem : get_size host file st ≢ unreachable
  unfolding get_size
  get_size_lem e = ground (arith, h, open_now)

  flush_lem : flush host st ≢ unreachable
  unfolding flush
  flush_lem e = ground (arith, h, open_now)

  set_size_lem : set_size host file size st ≢ unreachable
  unfolding set_size
  set_size_lem e = ground (arith, h, open_now)

  blob_lem :
      a.writable ≡ false → (st.kind ≡ blob_kind) × (set_size host file size st ≡ refused eio st)
  unfolding set_size
  blob_lem w = (ground (arith, h, open_now, w), ground (arith, h, open_now, w))

-- While a file is open, a further open with an access mode, a close, a read, a flush, a question for the
-- size and a change of it reach no unreachable statement. If an open since the file was last closed is for
-- writing, a write finds the access handle that it asserts. Else the file has a blob, so that the
-- assertion of a write fails, and a change of the size is refused with `EIO` and changes nothing.
pub reached_transfers :
    (host : OpfsHost) (file : ℕ) (st : OpenState) (a : Opens) (flags len offset size : ℕ)
    (buf : Bytes)
    → Reached host file st a
    → 0 < a.count
    → IsMode flags
    → (open_state host file flags st ≢ unreachable)
      × (close_state host st ≢ unreachable)
      × (read host len offset st ≢ unreachable)
      × (flush host st ≢ unreachable)
      × (get_size host file st ≢ unreachable)
      × (set_size host file size st ≢ unreachable)
      × (((a.writable ≡ true) × (st.kind ≡ access_kind) × (write host buf offset st ≢ unreachable))
          ⊎ ((a.writable ≡ false)
              × (st.kind ≡ blob_kind)
              × (set_size host file size st ≡ refused eio st)))
reached_transfers host file st a flags len offset size buf r pos mode =
    let h = reached-Implements host file st a r in
    (
      open_total host file st a h flags mode,
      close_total host file st a h pos,
      read_lem host file st a h len offset size buf pos,
      flush_lem host file st a h len offset size buf pos,
      get_size_lem host file st a h len offset size buf pos,
      set_size_lem host file st a h len offset size buf pos,
      elim (Bool-cases a.writable) [
        | inl w ↦ let (k, t) = write_lem host file st a h len offset size buf pos w in inl (w, k, t)
        | inr w ↦ let (k, t) = blob_lem host file st a h len offset size buf pos w in inr (w, k, t)
      ],
    )
