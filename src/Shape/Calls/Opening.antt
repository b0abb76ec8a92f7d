-- ===== src/Shape/Calls/Opening.antt =====
-- Opening and creating.
use emscripten_memfswasm_wra.Base.{ℕ, ◌≡◌, sym, true, Option, none, some, [], bit_and, bit_or}
use emscripten_memfswasm_wra.Base.Names.{Name}
use emscripten_memfswasm_wra.Posix.{
  enoent, eio, eloop, s_iallugo, s_irwxugo, s_isvtx, s_ifreg, s_ifdir, o_nofollow, has,
}
use emscripten_memfswasm_wra.Store.{
  FileId, memory_file, Body, data_file, directory, Dir, Result, value, error, ◌>>=◌, pure,
}
use emscripten_memfswasm_wra.Files.{new_file, create_file, create_directory}
use emscripten_memfswasm_wra.Directory.{insert_with, insert_data_file, insert_directory}
use emscripten_memfswasm_wra.Directory.Tree.{directory-same}
use emscripten_memfswasm_wra.Table
use emscripten_memfswasm_wra.Syscalls.Open.{
  or_throw, unwrap, Parsed, OpenReturnMode, fd, nothing, make_child, open_new, open_target,
  check_access, truncate_opened, open_old, do_open, openat, mknodat, do_mkdir, mkdirat,
  create_directory_in,
}
use emscripten_memfswasm_wra.Shape.{Keeps, Reads, Always}
use emscripten_memfswasm_wra.Shape.Rules.{
  reads_rules, keeps_rules, Reads-pure, Reads-throw, Reads-throw_if, Reads-bind, Reads-then,
  Reads-attempt, Keeps-Reads, Keeps-bind, Keeps-then, Keeps-if, Keeps-read, Keeps-read_then,
}
use emscripten_memfswasm_wra.Shape.Reading.{
  Reads-load, Reads-get_parent, Reads-get_backend, Reads-get_mode, Reads-get_file_from,
  Reads-parse_parent, Reads-Body,
}
use emscripten_memfswasm_wra.Shape.Changes.{no_children}
use emscripten_memfswasm_wra.Shape.Files.{Keeps-new_file, Keeps-weaken}
use emscripten_memfswasm_wra.Shape.Data.{Keeps-set_size}
use emscripten_memfswasm_wra.Shape.Children.{IsFree, Keeps-get_child}
use emscripten_memfswasm_wra.Shape.Children.Inserting.{Keeps-insert_with, Keeps-mount_child}
use emscripten_memfswasm_wra.Shape.Calls.Table.{Keeps-create_open, Keeps-add_entry}

pub Reads-or_throw : {A : Type 0} (o : Option A) (e : ℕ) → Reads (or_throw o e)
Reads-or_throw none e = Reads-throw e
Reads-or_throw (some a) e = Reads-pure a

pub Reads-unwrap : {A : Type 0} (r : Result A) → Reads (unwrap r)
Reads-unwrap (value a) = Reads-pure a
Reads-unwrap (error e) = Reads-throw e

-- The new child, inserted or mounted.
Keeps-make_child :
    (parent : FileId) (name : Name) (body : Body) (mode backend : ℕ)
    → ((y : Dir) → body ≡ directory y → y ≡ no_children)
    → Keeps (IsFree parent name) (
        make_child
          (insert_with (λ b. new_file body mode b true) parent name)
          (λ b. new_file body mode b true)
          parent
          name
          backend)
unfolding make_child
Keeps-make_child parent name body mode backend childless =
    Keeps-read _ _ _ (Reads-get_backend parent) λ own.
      Keeps-if _ _ _ _
        (Keeps-bind _ _ _ (Keeps-insert_with parent name body mode childless)
          λ c. Keeps-Reads _ _ (Reads-or_throw c eio))
        (Keeps-weaken _ _ (
          Keeps-new_file body mode _ true _ childless λ c.
            Keeps-then _ _ _ (Keeps-mount_child parent c name) (Keeps-Reads _ _ (Reads-pure c))))

Keeps-open_new :
    (parent : FileId) (name : Name) (flags mode backend : ℕ) (return_mode : OpenReturnMode)
    → Keeps (IsFree parent name) (open_new parent name flags mode backend return_mode)
unfolding open_new insert_data_file create_file
Keeps-open_new parent name flags mode backend return_mode =
    Keeps-read_then _ _ _ (Reads-throw_if _ _) (
      Keeps-read _ _ _ (Reads-get_parent parent) λ above.
        Keeps-read_then _ _ _ (Reads-or_throw above enoent) (
          Keeps-bind _ _ _
            (Keeps-make_child parent name (data_file (memory_file []))
              (bit_or (bit_and mode s_iallugo) s_ifreg) backend (λ y e. cc))
            λ created. answer return_mode created))
  where
    answer :
        (r : OpenReturnMode) (created : FileId)
        → Keeps Always (elim r [
          | nothing ↦ pure 0
          | fd ↦ do open_file ← Table.create_open created flags; Table.add_entry open_file
        ])
    answer nothing created = Keeps-Reads _ _ (Reads-pure 0)
    answer fd created = Keeps-bind _ _ _ (Keeps-create_open created flags) λ o. Keeps-add_entry o

Reads-open_target : (parent child : FileId) (flags : ℕ) → Reads (open_target parent child flags)
unfolding open_target
Reads-open_target parent child flags = Reads-bind _ _ (Reads-load child) λ n.
    Reads-Body n.body _ _ _ (λ i. Reads-pure child) (λ y. Reads-pure child)
      λ t.
        Reads-then _ _ (Reads-throw_if (has flags o_nofollow) eloop) (Reads-get_file_from parent t)

Keeps-truncate_opened : (child mode : ℕ) → Keeps Always (truncate_opened child mode)
unfolding truncate_opened
Keeps-truncate_opened child mode = search (keeps_rules, Keeps-set_size, Reads-load) depth 12

Reads-check_access : (access mode : ℕ) → Reads (check_access access mode)
unfolding check_access
Reads-check_access access mode = search (reads_rules)

Keeps-open_old : (parent found : FileId) (flags : ℕ) → Keeps Always (open_old parent found flags)
unfolding open_old
Keeps-open_old parent found flags =
    search
      (
        keeps_rules, Reads-open_target, Reads-load, Reads-check_access, Keeps-create_open,
        Keeps-truncate_opened, Keeps-add_entry,
      )
      depth 20

pub Keeps-do_open :
    (parsed : Parsed) (flags mode backend : ℕ) (return_mode : OpenReturnMode)
    → Keeps Always (do_open parsed flags mode backend return_mode)
unfolding do_open
Keeps-do_open parsed flags mode backend return_mode = Keeps-read_then _ _ _ (Reads-throw_if _ _) (
    Keeps-read _ _ _ (Reads-unwrap parsed) λ at. Keeps-read_then _ _ _ (Reads-throw_if _ _) (
      Keeps-get_child at.0 at.1 _ (Keeps-open_new at.0 at.1 flags mode backend return_mode)
        λ c. Keeps-weaken _ _ (Keeps-open_old at.0 c flags)))

pub Keeps-openat :
    (dirfd : ℕ) (path : Name) (flags mode : ℕ) → Keeps Always (openat dirfd path flags mode)
unfolding openat
Keeps-openat dirfd path flags mode =
    Keeps-read _ _ _ (Reads-attempt _ (Reads-parse_parent path dirfd))
      λ parsed. Keeps-do_open parsed flags mode _ fd

pub Keeps-mknodat : (dirfd : ℕ) (path : Name) (mode : ℕ) → Keeps Always (mknodat dirfd path mode)
unfolding mknodat
Keeps-mknodat dirfd path mode = search (keeps_rules, Reads-parse_parent, Keeps-do_open) depth 12

Keeps-do_mkdir : (parsed : Parsed) (mode backend : ℕ) → Keeps Always (do_mkdir parsed mode backend)
unfolding do_mkdir insert_directory create_directory
Keeps-do_mkdir parsed mode backend = Keeps-read _ _ _ (Reads-unwrap parsed) λ at.
    Keeps-read_then _ _ _ (Reads-throw_if _ _) (
      Keeps-get_child at.0 at.1 _
        (Keeps-read _ _ _ (Reads-get_mode at.0) λ above.
          Keeps-read_then _ _ _ (Reads-throw_if _ _) (
            Keeps-then _ _ _
              (Keeps-make_child at.0 at.1 (directory no_children)
                (bit_or (bit_and mode (bit_or s_irwxugo s_isvtx)) s_ifdir) backend
                (λ y e. sym (directory-same no_children y e)))
              (Keeps-Reads _ _ (Reads-pure tt))))
        λ c. record { at = λ s h p. h })

pub Keeps-mkdirat : (dirfd : ℕ) (path : Name) (mode : ℕ) → Keeps Always (mkdirat dirfd path mode)
unfolding mkdirat
Keeps-mkdirat dirfd path mode =
    Keeps-read _ _ _ (Reads-attempt _ (Reads-parse_parent path dirfd))
      λ parsed. Keeps-do_mkdir parsed mode _

pub Keeps-create_directory_in :
    (path : Name) (mode backend : ℕ) → Keeps Always (create_directory_in path mode backend)
unfolding create_directory_in
Keeps-create_directory_in path mode backend =
    Keeps-read _ _ _ (Reads-attempt _ (Reads-parse_parent path _))
      λ parsed. Keeps-do_mkdir parsed mode backend
