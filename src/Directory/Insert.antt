-- ===== src/Directory/Insert.antt =====
-- The insertion of a new child by `Directory::Handle` of wasmfs/file.cpp, on the store.
use emscripten_memfswasm_wra.Base.{◌∙◌, ℕ, ◌+◌, ◌≡◌, ◌≢◌, refl, true, none, some, arith}
use emscripten_memfswasm_wra.Base.Names.{Name, name_eq_refl}
use emscripten_memfswasm_wra.Memory.Entries.{find_entry, find_cached, insert_child}
use emscripten_memfswasm_wra.Memory.Entries.Laws.{find-insert_child}
use emscripten_memfswasm_wra.Store.{
  FileId, Body, directory, Dir, File, Fs, done, update, load, store, make_file, date_now,
  get_parent, set_parent, get_backend, set_mtime, update_mtime,
}
use emscripten_memfswasm_wra.Files.{new_file}
use emscripten_memfswasm_wra.Directory.Lookup.{IsLinked, look_up-child}
use emscripten_memfswasm_wra.Directory.{
  load_dir, store_dir, update_cache, cache_child, look_up, add_entry, insert_with,
}

-- The file that is created.
abbrev pub created : Fs → FileId → Body → ℕ → ℕ → File
created s dir body mode backend = record {
  body = body;
  mode = mode;
  atime = s.host.date_now s.calls;
  mtime = s.host.date_now s.calls;
  ctime = s.host.date_now s.calls;
  parent = some dir;
  backend = backend;
  seekable = true;
}

-- The state after the insertion, by its four writes: the new file, the entries of the directory,
-- the parent of the new file, and the time of the directory.
abbrev pub after_insert : Fs → FileId → File → Dir → Body → ℕ → Name → Fs
after_insert s dir n x body mode name =
    let c = s.next_file in
    let x' : Dir = record x { entries = insert_child name c x.entries } in
    let new = created s dir body mode n.backend in
    let files0 = update s.files c (some (record new { parent = none })) in
    let files1 = update files0 dir (some (record n { body = directory x' })) in
    let files2 = update files1 c (some new) in
    record s {
      files =
          update files2 dir
            (some (record n { body = directory x'; mtime = s.host.date_now (s.calls + 1) }));
      next_file = s.next_file + 1;
      calls = s.calls + 1 + 1;
    }

module _ (s : Fs) (dir p : FileId) (n : File) (x : Dir) (body : Body) (mode : ℕ) (name : Name)
    (linked : IsLinked s dir p n x) (old : dir ≢ s.next_file) where
  pub insert_with-eq :
      insert_with (λ b. new_file body mode b true) dir name s
      ≡ done (some s.next_file) (after_insert s dir n x body mode name)
  unfolding insert_with get_parent get_backend new_file make_file date_now add_entry load_dir
      store_dir load store cache_child update_cache set_parent update_mtime set_mtime
  insert_with-eq = ground (arith, linked.here, linked.body, linked.parent)

  pub after_insert-IsLinked :
      IsLinked
        (after_insert s dir n x body mode name)
        dir
        p
        (record n {
          body = directory (record x { entries = insert_child name s.next_file x.entries });
          mtime = s.host.date_now (s.calls + 1);
        })
        (record x { entries = insert_child name s.next_file x.entries })
  after_insert-IsLinked = record { here = ground arith; body = refl; parent = linked.parent }

  -- Under a name that was free, the directory then finds the inserted file, and the search changes
  -- nothing.
  pub look_up-insert :
      find_entry name x.entries ≡ none
      → find_cached name x.dcache ≡ none
      → look_up dir name (after_insert s dir n x body mode name)
        ≡ done (some s.next_file) (after_insert s dir n x body mode name)
  look_up-insert free unmounted =
      look_up-child (after_insert s dir n x body mode name) dir p _ _ name after_insert-IsLinked
        unmounted s.next_file (created s dir body mode n.backend)
        (find-insert_child name name s.next_file x.entries free ∙ rw (name_eq_refl name))
        (ground (arith, old)) refl
