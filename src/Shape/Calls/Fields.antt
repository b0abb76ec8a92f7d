-- ===== src/Shape/Calls/Fields.antt =====
-- Modes, times, sizes and the working directory.
use emscripten_memfswasm_wra.Base.{ℕ, Option, none, some, refl, not, ◌/◌, ◌==◌}
use emscripten_memfswasm_wra.Base.Names.{Name}
use emscripten_memfswasm_wra.Posix.{einval, enotdir}
use emscripten_memfswasm_wra.Store.{is_directory, FileId, M, modify}
use emscripten_memfswasm_wra.Syscalls.Metadata.{
  Stamp, omit, now, at, timespec_to_ms, requested_times, when, utimensat, fchmodat2, fchmod,
  do_truncate, truncate64, ftruncate64, fallocate,
}
use emscripten_memfswasm_wra.Syscalls.Listing.{do_chdir, chdir, fchdir, getdents64, dirent_size}
use emscripten_memfswasm_wra.Shape.{Keeps, Always, files-IsShaped}
use emscripten_memfswasm_wra.Shape.Rules.{
  keeps_rules, Reads-pure, Reads-throw, Reads-throw_if, Keeps-Reads, Keeps-bind, Keeps-then,
  Keeps-read, Keeps-read_then, Keeps-attempt,
}
use emscripten_memfswasm_wra.Shape.Reading.{
  Reads-load, Reads-load_open, Reads-get_open, Reads-get_size, Reads-get_file_at, Reads-parse_file,
}
use emscripten_memfswasm_wra.Shape.Files.{
  Keeps-date_now, Keeps-set_mode, Keeps-set_atime, Keeps-set_mtime, Keeps-update_ctime,
}
use emscripten_memfswasm_wra.Shape.Data.{Keeps-set_size}
use emscripten_memfswasm_wra.Shape.Calls.Transfers.{Keeps-Result, Keeps-set_position}

Keeps-timespec_to_ms : (t : Stamp) → Keeps Always (timespec_to_ms t)
unfolding timespec_to_ms
Keeps-timespec_to_ms omit = Keeps-Reads _ _ (Reads-pure none)
Keeps-timespec_to_ms now = search (keeps_rules, Keeps-date_now) depth 12
Keeps-timespec_to_ms (at t) = Keeps-Reads _ _ (Reads-pure (some t))

Keeps-requested_times : (times : Option (Stamp × Stamp)) → Keeps Always (requested_times times)
unfolding requested_times
Keeps-requested_times none = search (keeps_rules, Keeps-date_now) depth 12
Keeps-requested_times (some (a, m)) = search (keeps_rules, Keeps-timespec_to_ms) depth 12

Keeps-when :
    (t : Option ℕ) (act : ℕ → M (Unit {0}))
    → ((n : ℕ) → Keeps Always (act n))
    → Keeps Always (when t act)
Keeps-when none act h = Keeps-Reads _ _ (Reads-pure tt)
Keeps-when (some t) act h = h t

pub Keeps-utimensat :
    (dirfd : ℕ) (path : Name) (times : Option (Stamp × Stamp)) (flags : ℕ)
    → Keeps Always (utimensat dirfd path times flags)
unfolding utimensat
Keeps-utimensat dirfd path times flags =
    search
      (
        keeps_rules, Reads-get_file_at, Keeps-requested_times, Keeps-when, Keeps-set_atime,
        Keeps-set_mtime,
      )
      depth 20

pub Keeps-fchmodat2 :
    (dirfd : ℕ) (path : Name) (mode flags : ℕ) → Keeps Always (fchmodat2 dirfd path mode flags)
unfolding fchmodat2
Keeps-fchmodat2 dirfd path mode flags =
    search (keeps_rules, Reads-get_file_at, Keeps-set_mode, Keeps-update_ctime) depth 20

pub Keeps-fchmod : (fd mode : ℕ) → Keeps Always (fchmod fd mode)
unfolding fchmod
Keeps-fchmod fd mode =
    search (keeps_rules, Reads-get_open, Reads-load_open, Keeps-set_mode, Keeps-update_ctime) depth
      20

Keeps-do_truncate : (f : FileId) (size : ℕ) → Keeps Always (do_truncate f size)
unfolding do_truncate
Keeps-do_truncate f size = search (keeps_rules, Reads-load, Keeps-set_size) depth 20

pub Keeps-truncate64 : (path : Name) (size : ℕ) → Keeps Always (truncate64 path size)
unfolding truncate64
Keeps-truncate64 path size = search (keeps_rules, Reads-parse_file, Keeps-do_truncate) depth 12

pub Keeps-ftruncate64 : (fd size : ℕ) → Keeps Always (ftruncate64 fd size)
unfolding ftruncate64
Keeps-ftruncate64 fd size = Keeps-read _ _ _ (Reads-get_open fd) λ o.
    Keeps-read _ _ _ (Reads-load_open o) λ state.
      Keeps-bind _ _ _ (Keeps-attempt _ _ (Keeps-do_truncate state.file size)) λ r.
        Keeps-Result r _ _ (λ u. Keeps-Reads _ _ (Reads-pure tt))
          λ e. Keeps-Reads _ _ (Reads-throw _)

pub Keeps-fallocate : (fd offset len : ℕ) → Keeps Always (fallocate fd offset len)
unfolding fallocate
Keeps-fallocate fd offset len =
    search
      (keeps_rules, Reads-get_open, Reads-load_open, Reads-load, Reads-get_size, Keeps-set_size)
      depth 20

Keeps-cwd : (f : FileId) → Keeps Always (modify (λ s. record s { cwd = f }))
Keeps-cwd f = record { at = λ s h p. files-IsShaped s _ refl refl h }

Keeps-do_chdir : (f : FileId) → Keeps Always (do_chdir f)
unfolding do_chdir
Keeps-do_chdir f = search (keeps_rules, Reads-load, Keeps-cwd) depth 12

pub Keeps-chdir : (path : Name) → Keeps Always (chdir path)
unfolding chdir
Keeps-chdir path = search (keeps_rules, Reads-parse_file, Keeps-do_chdir) depth 12

pub Keeps-fchdir : (fd : ℕ) → Keeps Always (fchdir fd)
unfolding fchdir
Keeps-fchdir fd = search (keeps_rules, Reads-get_open, Reads-load_open, Keeps-do_chdir) depth 12

pub Keeps-Option :
    {A B : Type 0} (o : Option B) (m : M A) (k : B → M A)
    → Keeps Always m
    → ((b : B) → Keeps Always (k b))
    → Keeps Always (elim o [ none ↦ m | some b ↦ k b ])
Keeps-Option none m k km kk = km
Keeps-Option (some b) m k km kk = kk b

pub Keeps-getdents64 : (fd count : ℕ) → Keeps Always (getdents64 fd count)
unfolding getdents64
Keeps-getdents64 fd count =
    Keeps-read_then _ _ _ (Reads-throw_if (count / dirent_size == 0) einval) (
      Keeps-read _ _ _ (Reads-get_open fd) λ o. Keeps-read _ _ _ (Reads-load_open o) λ state.
        Keeps-read _ _ _ (Reads-load state.file) λ n.
          Keeps-read_then _ _ _ (Reads-throw_if (not (is_directory n.body)) enotdir) (
            Keeps-Option n.parent _ _ (Keeps-Reads _ _ (Reads-pure _))
              λ p. Keeps-then _ _ _ (Keeps-set_position o _) (Keeps-Reads _ _ (Reads-pure _))))
