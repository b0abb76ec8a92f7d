-- ===== src/Syscalls/Io/Append.antt =====
-- Writing through a descriptor that was opened with `O_APPEND`.
use emscripten_memfswasm_wra.Base.{
  ℕ, ◌+◌, ◌-◌, ◌%◌, ◌≤◌, ◌<◌, ◌≡◌, true, some, List, [], ◌∷◌, ◌++◌, length, arith, max, take, drop,
  replicate, take-append, drop_all, append-nil, length-append, length-replicate, take_all,
  append-nil,
}
use emscripten_memfswasm_wra.Posix.{o_append, has}
use emscripten_memfswasm_wra.Memory.DataFile.{Bytes, max_size, off_t_mod, resize, overwrite}
use emscripten_memfswasm_wra.Memory.DataFile.Laws.{after_write}
use emscripten_memfswasm_wra.Store.{
  File, OpenFile, Fs, memory_file, data_file, done, update, load, load_open, store_open, store,
  date_now, update_mtime, set_mtime,
}
use emscripten_memfswasm_wra.Files.{get_size}
use emscripten_memfswasm_wra.Syscalls.Io.{
  Ciovec, write_at_offset, write_start, advance, set_position, fd_write,
}
use emscripten_memfswasm_wra.Syscalls.Io.Writing.{gather, Readable, write_loop-gather}
use emscripten_memfswasm_wra.Syscalls.Io.RoundTrip.{IsOpen}

-- A write that begins at the end of a vector adds its bytes there.
pub after_write_end : (buf b : Bytes) → after_write buf (length b) b ≡ b ++ buf
unfolding overwrite resize
after_write_end buf b =
    let m : max (length b) (length b + length buf) ≡ length b + length buf = omega arith in
    let t : take (length b + length buf) b ≡ b = take_all (length b + length buf) b (omega arith) in
    let z = replicate (length b + length buf - length b) 0 in
    let d : drop (length b + length buf) (b ++ z) ≡ [] = drop_all (length b + length buf) (b ++ z) (
      omega (
        arith,
        length-append b z,
        length-replicate {A = ℕ} (length b + length buf - length b) 0,
      )) in
    rw (m, t, d, take-append b z, append-nil buf)

-- The state after an appending write: the position is set to the end before the transfer and past
-- the new bytes after it.
abbrev appended : Fs → ℕ → OpenFile → File → ℕ → Bytes → Fs
appended s o state n size c = record s {
  files =
      update (update s.files state.file (some (record n { body = data_file (memory_file c) })))
        state.file
        (some (record n { body = data_file (memory_file c); mtime = s.host.date_now s.calls }));
  opens =
      update (update s.opens o (some (record state { position = size }))) o
        (some (record state { position = length c }));
  calls = s.calls + 1;
}

fd_write-appended :
    (s : Fs) (fd o : ℕ) (state : OpenFile) (n : File) (b : Bytes) (v : Ciovec) (vs : List Ciovec)
    → IsOpen s fd o state n b
    → n.seekable ≡ true
    → has state.flags o_append ≡ true
    → length b + length (gather (v ∷ vs)) ≤ max_size
    → Readable (v ∷ vs)
    → 0 < length (gather (v ∷ vs))
    → fd_write fd (v ∷ vs) s
      ≡ done (length (gather (v ∷ vs))) (appended s o state n (length b) (b ++ gather (v ∷ vs)))
unfolding fd_write write_at_offset write_start advance load load_open store store_open update_mtime
    date_now set_mtime set_position get_size
fd_write-appended s fd o state n b v vs h seekable append fits hv pos =
    let g = gather (v ∷ vs) in
    let s1 : Fs = record s {
      opens = update s.opens o (some (record state { position = length b }));
    } in
    let l : length b + 0 ≡ length b = omega arith in
    let z : 0 + length g ≡ length g = omega arith in
    let e : length (b ++ g) ≡ length b + length g = length-append b g in
    let m : (length b + length g) % off_t_mod ≡ length b + length g = omega arith in
    let w =
      write_loop-gather state.file (length b) 0 v vs s1 n b (h.file, h.memory) (omega arith)
        (omega arith) hv in
    ground (
      arith,
      rw (l, z, after_write_end g b) at w,
      e,
      m,
      h.entry,
      h.opened,
      h.file,
      h.memory,
      seekable,
      append,
    )

-- On a seekable file of the memory backend, a write of at least one byte through a descriptor with
-- `O_APPEND` puts the bytes of all buffers at the end of the file, wherever the position was, sets
-- the time of the file, and leaves the position past the bytes, if the result fits into a vector and
-- no buffer with bytes is a null pointer.
pub append_write :
    (s : Fs) (fd o : ℕ) (state : OpenFile) (n : File) (b : Bytes) (v : Ciovec) (vs : List Ciovec)
    → IsOpen s fd o state n b
    → n.seekable ≡ true
    → has state.flags o_append ≡ true
    → length b + length (gather (v ∷ vs)) ≤ max_size
    → Readable (v ∷ vs)
    → 0 < length (gather (v ∷ vs))
    → (t : Fs) × (fd_write fd (v ∷ vs) s ≡ done (length (gather (v ∷ vs))) t)
      × (t.files state.file
          ≡ some (record n {
            body = data_file (memory_file (b ++ gather (v ∷ vs)));
            mtime = s.host.date_now s.calls;
          }))
      × (t.opens o ≡ some (record state { position = length (b ++ gather (v ∷ vs)) }))
append_write s fd o state n b v vs h seekable append fits hv pos = (
  appended s o state n (length b) (b ++ gather (v ∷ vs)),
  fd_write-appended s fd o state n b v vs h seekable append fits hv pos,
  ground arith,
  ground arith,
)
