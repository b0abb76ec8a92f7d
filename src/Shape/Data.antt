-- ===== src/Shape/Data.antt =====
-- Reading, writing and resizing a file, in a state that is in shape.
use emscripten_memfswasm_wra.Base.{
  ℕ, ◌+◌, refl, true, false, [], Bool, ◌==◌, min, ◌-◌, ◌/◌, ◌++◌, zero, suc, length,
}
use emscripten_memfswasm_wra.Memory.DataFile
use emscripten_memfswasm_wra.Memory.DataFile.{
  Bytes, Written, Fetched, Sized, written, refused, fetched, sized, aborts,
}
use emscripten_memfswasm_wra.Store.{
  FileId, DataImpl, memory_file, null_file, stdin_file, stdout_file, stderr_file, random_file,
  pipe_file, File, ◌>>=◌, ◌>>◌, pure, throw, crash,
}
use emscripten_memfswasm_wra.Files.{
  store_data, write_file, write_impl, read_file, read_impl, set_size, set_size_impl, as_ssize, send,
  get_entropy, random_fill,
}
use emscripten_memfswasm_wra.Shape.{Keeps, Reads, Always, files-IsShaped}
use emscripten_memfswasm_wra.Shape.Rules.{
  Keeps-Reads, Keeps-bind, Keeps-then, Reads-throw, Reads-pure, Reads-crash, Reads-if, Reads-bind,
}
use emscripten_memfswasm_wra.Shape.Files.{
  Holds, Keeps-load, Keeps-store_data, Keeps-Body, Keeps-crash, Keeps-weaken,
}

pub Reads-as_ssize : (n : ℕ) → Reads (as_ssize n)
unfolding as_ssize
Reads-as_ssize n = Reads-if _ _ _ (Reads-pure n) (Reads-throw _)

Keeps-send :
    (stream : ℕ) (call : ℕ → Bytes → ℕ → ℕ) (buf : Bytes) (offset : ℕ)
    → Keeps Always (send stream call buf offset)
unfolding send
Keeps-send stream call buf offset = record { at = λ s h p. files-IsShaped s _ refl refl h }

Keeps-sized :
    (f : FileId) (n : File) (r : Sized)
    → Keeps
        (Holds f n)
        (elim r [ sized buffer ↦ store_data f n (memory_file buffer) | aborts ↦ crash ])
Keeps-sized f n (sized buffer) = Keeps-store_data f n (memory_file buffer)
Keeps-sized f n aborts = Keeps-Reads _ _ Reads-crash

Keeps-written :
    (f : FileId) (n : File) (buf : Bytes) (r : Written)
    → Keeps (Holds f n) (elim r [
      | written buffer ↦ do store_data f n (memory_file buffer); as_ssize (length buf)
      | refused e ↦ throw e
      | Written.out_of_bounds ↦ crash
    ])
Keeps-written f n buf (written buffer) =
    Keeps-then _ _ _ (Keeps-store_data f n (memory_file buffer))
      (Keeps-Reads _ _ (Reads-as_ssize (length buf)))
Keeps-written f n buf (refused e) = Keeps-Reads _ _ (Reads-throw e)
Keeps-written f n buf Written.out_of_bounds = Keeps-Reads _ _ Reads-crash

Keeps-write_impl :
    (f : FileId) (n : File) (impl : DataImpl) (buf : Bytes) (offset : ℕ)
    → Keeps (Holds f n) (write_impl f n impl buf offset)
unfolding write_impl
Keeps-write_impl f n (memory_file buffer) buf offset =
    Keeps-written f n buf (DataFile.write buf offset buffer)
Keeps-write_impl f n null_file buf offset = Keeps-Reads _ _ (Reads-as_ssize (length buf))
Keeps-write_impl f n stdin_file buf offset = Keeps-Reads _ _ (Reads-throw _)
Keeps-write_impl f n stdout_file buf offset = record {
  at = λ s h p.
      (Keeps-bind Always _ _ (Keeps-send 1 s.host.write_stdout buf offset)
          λ r. Keeps-Reads _ _ (Reads-as_ssize r)).at
        s h tt;
}
Keeps-write_impl f n stderr_file buf offset = record {
  at = λ s h p.
      (Keeps-bind Always _ _ (Keeps-send 2 s.host.write_stderr buf offset)
          λ r. Keeps-Reads _ _ (Reads-as_ssize r)).at
        s h tt;
}
Keeps-write_impl f n random_file buf offset = Keeps-Reads _ _ (Reads-throw _)
Keeps-write_impl f n (pipe_file q) buf offset = record {
  at = λ s h p.
      (Keeps-Reads Always _ (Reads-as_ssize (length buf))).at _ (files-IsShaped s _ refl refl h) tt;
}

Keeps-get_entropy : (n : ℕ) → Keeps Always (get_entropy n)
unfolding get_entropy
Keeps-get_entropy n = record { at = λ s h p. files-IsShaped s _ refl refl h }

Keeps-random_fill : (rounds left : ℕ) → Keeps Always (random_fill rounds left)
unfolding random_fill
Keeps-random_fill zero left = Keeps-Reads _ _ (Reads-pure _)
Keeps-random_fill (suc rounds) left = go (left == 0) (Keeps-random_fill rounds (left - 256))
  where
    go :
        (b : Bool)
        → Keeps Always (random_fill rounds (left - 256))
        → Keeps Always (elim b [
          | true ↦ pure []
          | false ↦ do
            bytes ← get_entropy (min left 256)
            rest ← random_fill rounds (left - 256)
            pure (bytes ++ rest)
        ])
    go true more = Keeps-Reads _ _ (Reads-pure _)
    go false more =
        Keeps-bind Always _ _ (Keeps-get_entropy _)
          λ bytes. Keeps-bind Always _ _ more λ rest. Keeps-Reads _ _ (Reads-pure _)

Reads-fetched :
    (r : Fetched)
    → Reads {A = Bytes × ℕ} (elim r [
      | fetched bytes ↦ do n ← as_ssize (length bytes); pure (bytes, n)
      | Fetched.out_of_bounds ↦ crash
    ])
Reads-fetched (fetched bytes) =
    Reads-bind _ _ (Reads-as_ssize (length bytes)) λ n. Reads-pure (bytes, n)
Reads-fetched Fetched.out_of_bounds = Reads-crash

Keeps-sized_answer :
    (bytes : Bytes) (n : ℕ) → Keeps {A = Bytes × ℕ} Always (do r ← as_ssize n; pure (bytes, r))
Keeps-sized_answer bytes n =
    Keeps-Reads _ _ (Reads-bind _ _ (Reads-as_ssize n) λ r. Reads-pure (bytes, r))

Keeps-read_impl :
    (f : FileId) (n : File) (impl : DataImpl) (len offset : ℕ)
    → Keeps Always (read_impl f n impl len offset)
unfolding read_impl
Keeps-read_impl f n (memory_file buffer) len offset =
    Keeps-Reads _ _ (Reads-fetched (DataFile.read len offset buffer))
Keeps-read_impl f n null_file len offset = Keeps-Reads _ _ (Reads-pure _)
Keeps-read_impl f n stdin_file len offset = record {
  at = λ s h p.
      let answer = s.host.read_stdin s.calls len offset in
      (Keeps-sized_answer answer.0 answer.1).at _ (files-IsShaped s _ refl refl h) tt;
}
Keeps-read_impl f n stdout_file len offset = Keeps-Reads _ _ (Reads-throw _)
Keeps-read_impl f n stderr_file len offset = Keeps-Reads _ _ (Reads-throw _)
Keeps-read_impl f n random_file len offset =
    Keeps-bind Always _ _ (Keeps-random_fill (len / 256 + 1) len)
      λ bytes. Keeps-sized_answer bytes len
Keeps-read_impl f n (pipe_file q) len offset = record {
  at = λ s h p. (Keeps-sized_answer _ _).at _ (files-IsShaped s _ refl refl h) tt;
}

Keeps-set_size_impl :
    (f : FileId) (n : File) (impl : DataImpl) (size : ℕ)
    → Keeps (Holds f n) (set_size_impl f n impl size)
unfolding set_size_impl
Keeps-set_size_impl f n (memory_file buffer) size = Keeps-sized f n (DataFile.set_size size buffer)
Keeps-set_size_impl f n null_file size = Keeps-Reads _ _ (Reads-throw _)
Keeps-set_size_impl f n stdin_file size = Keeps-Reads _ _ (Reads-throw _)
Keeps-set_size_impl f n stdout_file size = Keeps-Reads _ _ (Reads-throw _)
Keeps-set_size_impl f n stderr_file size = Keeps-Reads _ _ (Reads-throw _)
Keeps-set_size_impl f n random_file size = Keeps-Reads _ _ (Reads-throw _)
Keeps-set_size_impl f n (pipe_file q) size = Keeps-Reads _ _ (Reads-pure tt)

pub Keeps-write_file :
    (f : FileId) (buf : Bytes) (offset : ℕ) → Keeps Always (write_file f buf offset)
unfolding write_file
Keeps-write_file f buf offset = Keeps-load f _ λ n.
    Keeps-Body _ n.body _ _ _ (λ i. Keeps-write_impl f n i buf offset) (λ y. Keeps-crash _)
      (λ t. Keeps-crash _)

pub Keeps-read_file : (f : FileId) (len offset : ℕ) → Keeps Always (read_file f len offset)
unfolding read_file
Keeps-read_file f len offset = Keeps-load f _ λ n.
    Keeps-Body _ n.body _ _ _ (λ i. Keeps-weaken _ _ (Keeps-read_impl f n i len offset))
      (λ y. Keeps-crash _) (λ t. Keeps-crash _)

pub Keeps-set_size : (f : FileId) (size : ℕ) → Keeps Always (set_size f size)
unfolding set_size
Keeps-set_size f size = Keeps-load f _ λ n.
    Keeps-Body _ n.body _ _ _ (λ i. Keeps-set_size_impl f n i size) (λ y. Keeps-crash _)
      (λ t. Keeps-crash _)
