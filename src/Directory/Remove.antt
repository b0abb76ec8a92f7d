-- ===== src/Directory/Remove.antt =====
-- `Directory::Handle::removeChild` of wasmfs/file.cpp on the store.
use emscripten_memfswasm_wra.Base.{◌+◌, ◌≡◌, ◌≢◌, refl, none, some, arith}
use emscripten_memfswasm_wra.Base.Names.{Name}
use emscripten_memfswasm_wra.Memory.Entries.{find_entry, find_cached, erase_entry}
use emscripten_memfswasm_wra.Memory.Entries.Laws.{NodupNames, find-erase_entry_self}
use emscripten_memfswasm_wra.Store.{
  FileId, directory, Dir, File, Fs, done, update, load, store, date_now, set_parent, set_mtime,
  update_mtime,
}
use emscripten_memfswasm_wra.Directory.Lookup.{IsLinked, look_up-none}
use emscripten_memfswasm_wra.Directory.{load_dir, store_dir, look_up, remove_entry, remove_child}

-- The state after the removal of `c`, by its three writes: the parent of the child, the entries of
-- the directory, and the time of the directory.
abbrev pub after_remove : Fs → FileId → File → Dir → FileId → File → Name → Fs
after_remove s dir n x c m name =
    let x' : Dir = record x { entries = erase_entry name x.entries } in
    let files0 = update s.files c (some (record m { parent = none })) in
    let files1 = update files0 dir (some (record n { body = directory x' })) in
    record s {
      files =
          update files1 dir
            (some (record n { body = directory x'; mtime = s.host.date_now s.calls }));
      calls = s.calls + 1;
    }

module _ (s : Fs) (dir p : FileId) (n : File) (x : Dir) (c : FileId) (m : File) (name : Name)
    (linked : IsLinked s dir p n x) (unmounted : find_cached name x.dcache ≡ none)
    (found : find_entry name x.entries ≡ some c) (child : s.files c ≡ some m)
    (other : c ≢ dir) where
  pub remove_child-eq : remove_child dir name s ≡ done tt (after_remove s dir n x c m name)
  unfolding remove_child remove_entry load_dir store_dir load store set_parent update_mtime
      set_mtime date_now
  remove_child-eq = ground (arith, linked.here, linked.body, unmounted, found, child, other)

  after_remove-IsLinked :
      IsLinked
        (after_remove s dir n x c m name)
        dir
        p
        (record n {
          body = directory (record x { entries = erase_entry name x.entries });
          mtime = s.host.date_now s.calls;
        })
        (record x { entries = erase_entry name x.entries })
  after_remove-IsLinked = record { here = ground arith; body = refl; parent = linked.parent }

  -- In a directory where no name stands twice, the removed name is then free, and the child that
  -- was removed has no parent.
  pub look_up-remove :
      NodupNames x.entries
      → (look_up dir name (after_remove s dir n x c m name)
          ≡ done none (after_remove s dir n x c m name))
        × ((after_remove s dir n x c m name).files c ≡ some (record m { parent = none }))
  look_up-remove nodup = (
    look_up-none (after_remove s dir n x c m name) dir p _ _ name after_remove-IsLinked unmounted
        (find-erase_entry_self name x.entries nodup),
    ground (arith, other),
  )
