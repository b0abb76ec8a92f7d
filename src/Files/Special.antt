-- ===== src/Files/Special.antt =====
-- Pipes, and the bytes of the random devices.
use emscripten_memfswasm_wra.Base.{
  ℕ, zero, suc, ◌+◌, ◌-◌, ◌*◌, ◌/◌, ◌^◌, ◌≤◌, ◌<◌, ◌≡◌, refl, min, Bool-cases, inl, inr, some, [],
  ◌++◌, length, take, drop, length-append, ◌==◌, arith,
}
use emscripten_memfswasm_wra.Memory.DataFile.{Bytes}
use emscripten_memfswasm_wra.Store.{
  FileId, File, Fs, random_file, pipe_file, data_file, done, update, load,
}
use emscripten_memfswasm_wra.Files.{
  as_ssize, write_impl, read_impl, write_file, read_file, get_entropy, random_fill,
}

-- What is written to one end of a pipe waits behind what is in it already, and a read at the other
-- end takes as many bytes as it asks for, or all there are, from the front. No more than 2^31 - 1
-- bytes are written or waiting.
pub pipe_fifo :
    (s : Fs) (r w : FileId) (reader writer : File) (p : ℕ) (bytes : Bytes) (len o o' : ℕ)
    → s.files w ≡ some writer
    → writer.body ≡ data_file (pipe_file p)
    → s.files r ≡ some reader
    → reader.body ≡ data_file (pipe_file p)
    → length (s.pipes p ++ bytes) < 2 ^ 31
    → (t : Fs) × (u : Fs) × (write_file w bytes o s ≡ done (length bytes) t)
      × (read_file r len o' t
          ≡ done (take len (s.pipes p ++ bytes), min len (length (s.pipes p ++ bytes))) u)
      × (u.pipes p ≡ drop len (s.pipes p ++ bytes))
      × (u.files ≡ s.files)
unfolding write_file read_file write_impl read_impl as_ssize load
pipe_fifo s r w reader writer p bytes len o o' hw bw hr br small =
    let t : Fs = record s { pipes = update s.pipes p (s.pipes p ++ bytes) } in
    let l = length-append (s.pipes p) bytes in
    (
      t,
      record t { pipes = update t.pipes p (drop len (s.pipes p ++ bytes)) },
      ground (arith, hw, bw, l),
      ground (arith, hr, br, small),
      ground arith,
      refl,
    )

random_fill-length :
    (rounds left : ℕ) (s : Fs)
    → ((calls n : ℕ) → length (s.host.getentropy calls n) ≡ n)
    → left ≤ 256 * rounds
    → (b : Bytes) × (t : Fs) × (random_fill rounds left s ≡ done b t) × (length b ≡ left)
unfolding random_fill get_entropy
random_fill-length zero left s h k = ([], s, refl, omega arith)
random_fill-length (suc rounds) left s h k = elim (Bool-cases (left == 0)) [
  | inl e ↦ ([], s, ground (arith, e), ground arith)
  | inr e ↦
      let s1 : Fs = record s { calls = s.calls + 1 } in
      let (b, t, q, l) = random_fill-length rounds (left - 256) s1 h (ground arith) in
      let front = s.host.getentropy s.calls (min left 256) in
      (
        front ++ b,
        t,
        ground (arith, e, q),
        omega (arith, length-append front b, h s.calls (min left 256), l),
      )
]

-- A read of a random device fills the whole buffer, of less than 2^31 bytes, if every call of the
-- imported `getentropy` answers with as many bytes as it was asked for.
random_read :
    (s : Fs) (f : FileId) (n : File) (len o : ℕ)
    → s.files f ≡ some n
    → n.body ≡ data_file random_file
    → len < 2 ^ 31
    → ((calls k : ℕ) → length (s.host.getentropy calls k) ≡ k)
    → (b : Bytes) × (t : Fs) × (read_file f len o s ≡ done (b, len) t) × (length b ≡ len)
unfolding read_file read_impl as_ssize load
random_read s f n len o here body small host =
    let (b, t, q, l) = random_fill-length (len / 256 + 1) len s host (omega arith) in
    (b, t, ground (arith, here, body, q), l)
