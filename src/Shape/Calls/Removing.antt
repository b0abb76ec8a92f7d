-- ===== src/Shape/Calls/Removing.antt =====
-- Removing, unmounting and linking.
use emscripten_memfswasm_wra.Base.{ℕ, none}
use emscripten_memfswasm_wra.Base.Names.{Name}
use emscripten_memfswasm_wra.Posix.{s_iflnk}
use emscripten_memfswasm_wra.Store.{FileId, Fs, M, symlink, ◌>>=◌}
use emscripten_memfswasm_wra.Files.{create_symlink}
use emscripten_memfswasm_wra.Directory.{insert_symlink}
use emscripten_memfswasm_wra.Syscalls.Trees.{check_removable, unlinkat, unmount, symlinkat}
use emscripten_memfswasm_wra.Syscalls.Open.{or_throw}
use emscripten_memfswasm_wra.Shape.{Keeps, Reads, Always}
use emscripten_memfswasm_wra.Shape.Rules.{
  reads_rules, Reads-throw_if, Keeps-Reads, Keeps-bind, Keeps-read, Keeps-read_then,
}
use emscripten_memfswasm_wra.Shape.Reading.{
  Reads-load, Reads-get_mode, Reads-get_backend, Reads-get_num_entries, Reads-parse_parent,
}
use emscripten_memfswasm_wra.Shape.Children.{Keeps-get_child, Keeps-remove_child}
use emscripten_memfswasm_wra.Shape.Children.Inserting.{Keeps-insert_with}
use emscripten_memfswasm_wra.Shape.Calls.Opening.{Reads-or_throw}

Reads-check_removable : (f : FileId) (flags : ℕ) → Reads (check_removable f flags)
unfolding check_removable
Reads-check_removable f flags = search (reads_rules, Reads-load, Reads-get_num_entries) depth 12

Keeps-missing :
    {A : Type 0} (P : Fs → Type 0) (e : ℕ) (k : FileId → M A) → Keeps P (or_throw none e >>= k)
Keeps-missing P e k = record { at = λ s h p. h }

ruleset removing_rules = (
  Keeps-get_child, Keeps-missing, Keeps-remove_child, Keeps-read_then, Keeps-read, Reads-or_throw,
  reads_rules,
)

pub Keeps-unlinkat :
    (dirfd : ℕ) (path : Name) (flags : ℕ) → Keeps Always (unlinkat dirfd path flags)
unfolding unlinkat
Keeps-unlinkat dirfd path flags =
    search (removing_rules, Reads-parse_parent, Reads-check_removable, Reads-get_mode) depth 30

pub Keeps-unmount : (path : Name) → Keeps Always (unmount path)
unfolding unmount
Keeps-unmount path =
    search (removing_rules, Reads-parse_parent, Reads-load, Reads-get_backend) depth 30

pub Keeps-symlinkat :
    (target : Name) (dirfd : ℕ) (path : Name) → Keeps Always (symlinkat target dirfd path)
unfolding symlinkat insert_symlink create_symlink
Keeps-symlinkat target dirfd path = Keeps-read _ _ _ (Reads-parse_parent path dirfd) λ at.
    Keeps-read_then _ _ _ (Reads-throw_if _ _) (
      Keeps-get_child at.0 at.1 _
        (Keeps-bind _ _ _ (Keeps-insert_with at.0 at.1 (symlink target) s_iflnk (λ y e. cc))
          λ c. Keeps-Reads _ _ (search (reads_rules, Reads-or_throw)))
        λ c. record { at = λ s h p. h })
