-- ===== src/Shape/Calls/Transfers.antt =====
-- Reading and writing through descriptors.
use emscripten_memfswasm_wra.Base.{ℕ, ◌+◌, ◌%◌, Bool, List, [], ◌∷◌, ltb, length, ◌&&◌}
use emscripten_memfswasm_wra.Posix.{einval, efbig}
use emscripten_memfswasm_wra.Memory.DataFile.{size_t_mod}
use emscripten_memfswasm_wra.Store.{FileId, OpenFile, M, Result, value, error}
use emscripten_memfswasm_wra.Syscalls.Io.{
  Ciovec, Iovec, OffsetHandling, open_file_state, argument, add_will_overflow, set_position,
  set_flags, write_loop, write_start, advance, write_at_offset, read_loop, read_at_offset, fd_write,
  fd_read, fd_pwrite, fd_pread, fd_close, fd_seek, seek_target,
}
use emscripten_memfswasm_wra.Shape.{Keeps, Reads, Always}
use emscripten_memfswasm_wra.Shape.Rules.{
  reads_rules, keeps_rules, Reads-pure, Reads-throw, Reads-throw_if, Reads-if, Keeps-Reads,
  Keeps-bind, Keeps-if, Keeps-read, Keeps-read_then, Keeps-attempt,
}
use emscripten_memfswasm_wra.Shape.Reading.{
  Reads-load, Reads-load_open, Reads-get_open, Reads-get_size, Reads-notify, Reads-Option,
}
use emscripten_memfswasm_wra.Shape.Files.{Keeps-store_open, Keeps-update_mtime}
use emscripten_memfswasm_wra.Shape.Data.{Keeps-write_file, Keeps-read_file}
use emscripten_memfswasm_wra.Shape.Calls.Table.{Keeps-set_entry}

module _ {A B : Type 0} where
  pub Keeps-Result :
      (r : Result A) (k : A → M B) (l : ℕ → M B)
      → ((a : A) → Keeps Always (k a))
      → ((e : ℕ) → Keeps Always (l e))
      → Keeps Always (elim r [ value a ↦ k a | error e ↦ l e ])
  Keeps-Result (value a) k l kk kl = kk a
  Keeps-Result (error e) k l kk kl = kl e

pub Keeps-set_position : (o p : ℕ) → Keeps Always (set_position o p)
unfolding set_position
Keeps-set_position o p = search (keeps_rules, Reads-load_open, Keeps-store_open) depth 12

pub Keeps-set_flags : (o flags : ℕ) → Keeps Always (set_flags o flags)
unfolding set_flags
Keeps-set_flags o flags = search (keeps_rules, Reads-load_open, Keeps-store_open) depth 12

Keeps-write_loop :
    (f : FileId) (offset sum : ℕ) (vs : List Ciovec) → Keeps Always (write_loop f offset sum vs)
unfolding write_loop
Keeps-write_loop f offset sum [] = Keeps-Reads _ _ (Reads-pure sum)
Keeps-write_loop f offset sum (v ∷ vs) =
    Keeps-read_then _ _ _ (Reads-throw_if (v.is_null && ltb 0 (length v.bytes)) einval) (
      Keeps-read_then _ _ _ (Reads-throw_if (add_will_overflow offset sum) efbig) (
        Keeps-bind _ _ _ (Keeps-attempt _ _ (Keeps-write_file f v.bytes _)) λ r.
          Keeps-Result r _ _
            (λ n.
              Keeps-if _ (ltb n (length v.bytes)) _ _ (Keeps-Reads _ _ (Reads-pure _))
                (Keeps-write_loop f offset ((sum + n) % size_t_mod) vs))
            λ e. Keeps-Reads _ _ (Reads-if (ltb 0 sum) _ _ (Reads-pure sum) (Reads-throw e))))

Keeps-advance :
    (handling : OffsetHandling) (o : ℕ) (seekable : Bool) (p : ℕ)
    → Keeps Always (advance handling o seekable p)
unfolding advance
Keeps-advance argument o seekable p = Keeps-Reads _ _ (Reads-pure tt)
Keeps-advance open_file_state o seekable p = search (keeps_rules, Keeps-set_position) depth 12

Keeps-write_start :
    (handling : OffsetHandling) (o : ℕ) (state : OpenFile) (offset : ℕ)
    → Keeps Always (write_start handling o state offset)
unfolding write_start
Keeps-write_start argument o state offset = Keeps-Reads _ _ (Reads-pure offset)
Keeps-write_start open_file_state o state offset =
    search (keeps_rules, Reads-get_size, Keeps-set_position) depth 12

Keeps-write_at_offset :
    (handling : OffsetHandling) (fd : ℕ) (vs : List Ciovec) (offset : ℕ)
    → Keeps Always (write_at_offset handling fd vs offset)
unfolding write_at_offset
Keeps-write_at_offset handling fd vs offset =
    search
      (
        keeps_rules, Reads-get_open, Reads-load_open, Reads-load, Keeps-write_start,
        Keeps-write_loop, Keeps-advance, Keeps-update_mtime,
      )
      depth 20

Keeps-read_loop :
    (f : FileId) (offset sum : ℕ) (vs : List Iovec) → Keeps Always (read_loop f offset sum vs)
unfolding read_loop
Keeps-read_loop f offset sum [] = Keeps-Reads _ _ (Reads-pure _)
Keeps-read_loop f offset sum (v ∷ vs) =
    Keeps-read_then _ _ _ (Reads-throw_if (v.is_null && ltb 0 v.len) einval) (
      Keeps-bind _ _ _ (Keeps-attempt _ _ (Keeps-read_file f v.len _)) λ r.
        Keeps-Result r _ _
          (λ n. Keeps-if _ (ltb n.1 v.len) _ _ (Keeps-Reads _ _ (Reads-pure _)) (
            Keeps-bind _ _ _ (Keeps-read_loop f offset ((sum + n.1) % size_t_mod) vs)
              λ rest. Keeps-Reads _ _ (Reads-pure _)))
          λ e. Keeps-Reads _ _ (Reads-if (ltb 0 sum) _ _ (Reads-pure _) (Reads-throw e)))

Keeps-read_at_offset :
    (handling : OffsetHandling) (fd : ℕ) (vs : List Iovec) (offset : ℕ)
    → Keeps Always (read_at_offset handling fd vs offset)
unfolding read_at_offset
Keeps-read_at_offset handling fd vs offset =
    search
      (keeps_rules, Reads-get_open, Reads-load_open, Reads-load, Keeps-read_loop, Keeps-advance)
      depth 20

pub Keeps-fd_write : (fd : ℕ) (vs : List Ciovec) → Keeps Always (fd_write fd vs)
unfolding fd_write
Keeps-fd_write fd vs = Keeps-write_at_offset open_file_state fd vs 0

pub Keeps-fd_pwrite :
    (fd : ℕ) (vs : List Ciovec) (offset : ℕ) → Keeps Always (fd_pwrite fd vs offset)
unfolding fd_pwrite
Keeps-fd_pwrite fd vs offset = Keeps-write_at_offset argument fd vs offset

pub Keeps-fd_read : (fd : ℕ) (vs : List Iovec) → Keeps Always (fd_read fd vs)
unfolding fd_read
Keeps-fd_read fd vs = Keeps-read_at_offset open_file_state fd vs 0

pub Keeps-fd_pread : (fd : ℕ) (vs : List Iovec) (offset : ℕ) → Keeps Always (fd_pread fd vs offset)
unfolding fd_pread
Keeps-fd_pread fd vs offset = Keeps-read_at_offset argument fd vs offset

pub Keeps-fd_close : (fd : ℕ) → Keeps Always (fd_close fd)
unfolding fd_close
Keeps-fd_close fd = Keeps-read _ _ _ (Reads-get_open fd) λ o.
    Keeps-bind _ _ _ (Keeps-set_entry fd _)
      λ c. Keeps-Reads _ _ (Reads-Option c _ _ (Reads-pure tt) Reads-notify)

Reads-seek_target : (state : OpenFile) (offset whence : ℕ) → Reads (seek_target state offset whence)
unfolding seek_target
Reads-seek_target state offset whence = search (reads_rules, Reads-get_size) depth 12

pub Keeps-fd_seek : (fd offset whence : ℕ) → Keeps Always (fd_seek fd offset whence)
unfolding fd_seek
Keeps-fd_seek fd offset whence =
    search
      (
        keeps_rules, Reads-get_open, Reads-load_open, Reads-load, Reads-seek_target,
        Keeps-set_position,
      )
      depth 20
