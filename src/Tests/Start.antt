-- ===== src/Tests/Start.antt =====
-- Calls after the start of an instance.
use emscripten_memfswasm_wra.Base.{◌≡◌, refl, inl, true}
use emscripten_memfswasm_wra.Base.Names.{codes, name_eq, name_lt}
use emscripten_memfswasm_wra.Posix.{at_fdcwd, has}
use emscripten_memfswasm_wra.Memory.Entries.{find_entry, find_cached, insert_child, insert_cached}
use emscripten_memfswasm_wra.Store.{
  Fs, done, load, store, get_parent, set_parent, get_mode, get_backend, make_file, date_now,
  update_mtime, set_mtime,
}
use emscripten_memfswasm_wra.Files.{new_file, create_directory, notify}
use emscripten_memfswasm_wra.Directory.{
  look_up, get_child, load_dir, store_dir, cache_child, update_cache, insert_directory, insert_with,
  add_entry, mount_child, try_insert,
}
use emscripten_memfswasm_wra.Table.{create_open, make_open}
use emscripten_memfswasm_wra.Instance.{
  boot, empty, special_file, open_standard, mount_devices, init_root_directory,
}
use emscripten_memfswasm_wra.Paths.{
  parse_parent, parse_file, get_base_dir, parent_with, relative_parent_with, strip_trailing, walk,
  segments, cut,
}
use emscripten_memfswasm_wra.Syscalls.Open.{do_mkdir, mkdirat, make_child}
use emscripten_memfswasm_wra.Shape.{IsShaped, Same}
use emscripten_memfswasm_wra.Shape.Booted.{booted, state_after}
use emscripten_memfswasm_wra.Shape.Sequences.{
  call_mkdirat, run, Leads, start, next, reached-IsShaped, parse-Same,
}
use emscripten_memfswasm_wra.Tests.{host}

abbrev after_mkdir : Fs
after_mkdir = state_after (mkdirat at_fdcwd (codes "/a") 0o755 (booted host)) (booted host)

mkdir_done : run (call_mkdirat at_fdcwd (codes "/a") 0o755) (booted host) ≡ done tt after_mkdir
unfolding run mkdirat do_mkdir make_child parse_parent get_base_dir parent_with relative_parent_with
    strip_trailing walk segments cut get_child look_up find_cached find_entry get_mode get_backend
    insert_directory insert_with create_directory has boot special_file new_file date_now make_file
    open_standard create_open load notify make_open init_root_directory set_parent store get_parent
    add_entry load_dir store_dir cache_child update_cache try_insert insert_cached insert_child
    name_lt name_eq update_mtime set_mtime mount_devices mount_child
mkdir_done = refl

mkdir_way : Leads (booted host) after_mkdir
mkdir_way = next start (call_mkdirat at_fdcwd (codes "/a") 0o755) (inl mkdir_done)

reached-IsShaped_example : (boot (empty host) ≡ done tt (booted host)) × IsShaped after_mkdir
reached-IsShaped_example = reached-IsShaped host after_mkdir mkdir_way

parse-Same_example :
    Same after_mkdir (parse_parent (codes "/a/b") at_fdcwd after_mkdir)
    × Same after_mkdir (parse_file (codes "/a/b") at_fdcwd true after_mkdir)
parse-Same_example = parse-Same host after_mkdir (codes "/a/b") at_fdcwd mkdir_way
