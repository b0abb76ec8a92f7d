-- ===== src/Shape/Calls/Whole.antt =====
-- Files of other backends, whole files, mappings, and the times that memfs.cpp sets.
use emscripten_memfswasm_wra.Base.{ℕ, Bool, some, [], ◌==◌}
use emscripten_memfswasm_wra.Base.Names.{Name}
use emscripten_memfswasm_wra.Memory.DataFile.{Bytes}
use emscripten_memfswasm_wra.Store.{FileId, memory_file, data_file}
use emscripten_memfswasm_wra.Files.{create_file}
use emscripten_memfswasm_wra.Directory.{insert_data_file}
use emscripten_memfswasm_wra.Syscalls.Open.{create_file_in, fd}
use emscripten_memfswasm_wra.Syscalls.Metadata.{set_times}
use emscripten_memfswasm_wra.Syscalls.Mapping.{check_map_type, mmap, msync}
use emscripten_memfswasm_wra.Wasi.{fd_filestat_set_times, path_filestat_set_times}
use emscripten_memfswasm_wra.JsApi.{child_to_write, write_at_end, write_whole}
use emscripten_memfswasm_wra.Shape.{Keeps, Reads, Always}
use emscripten_memfswasm_wra.Shape.Rules.{
  keeps_rules, Reads-pure, Reads-throw, Reads-crash, Reads-if, Reads-then, Reads-attempt,
  Keeps-Reads, Keeps-bind, Keeps-attempt, Keeps-read, Keeps-read_then,
}
use emscripten_memfswasm_wra.Shape.Reading.{
  Reads-load, Reads-load_open, Reads-get_open, Reads-get_size, Reads-notify, Reads-parse_parent,
  Reads-parse_file,
}
use emscripten_memfswasm_wra.Shape.Files.{Keeps-set_atime, Keeps-set_mtime, Keeps-Body}
use emscripten_memfswasm_wra.Shape.Data.{Keeps-write_file, Keeps-read_file}
use emscripten_memfswasm_wra.Shape.Children.{Keeps-get_child}
use emscripten_memfswasm_wra.Shape.Children.Inserting.{Keeps-insert_with}
use emscripten_memfswasm_wra.Shape.Calls.Opening.{Keeps-do_open}
use emscripten_memfswasm_wra.Shape.Calls.Transfers.{Keeps-fd_pwrite, Keeps-Result}
use emscripten_memfswasm_wra.Shape.Calls.Fields.{Keeps-Option}

pub Keeps-create_file_in :
    (path : Name) (mode backend : ℕ) → Keeps Always (create_file_in path mode backend)
unfolding create_file_in
Keeps-create_file_in path mode backend =
    Keeps-read _ _ _ (Reads-attempt _ (Reads-parse_parent path _))
      λ parsed. Keeps-do_open parsed _ mode backend fd

Keeps-child_to_write : (dir : FileId) (name : Name) → Keeps Always (child_to_write dir name)
unfolding child_to_write insert_data_file create_file
Keeps-child_to_write dir name =
    Keeps-get_child dir name _
      (Keeps-insert_with dir name (data_file (memory_file [])) _ (λ y e. cc))
      λ c. Keeps-Reads _ _ (Reads-pure (some c))

Keeps-write_at_end : (f : FileId) (bytes : Bytes) → Keeps Always (write_at_end f bytes)
unfolding write_at_end
Keeps-write_at_end f bytes = Keeps-read_then _ _ _ (Reads-notify f) (
    Keeps-read _ _ _ (Reads-get_size f) λ offset.
      Keeps-bind _ _ _ (Keeps-attempt _ _ (Keeps-write_file f bytes offset)) λ r.
        Keeps-Result r _ _
          (λ n.
            Keeps-Reads _ _ (
              Reads-if (n == 0) _ _ (Reads-then _ _ (Reads-notify f) (Reads-pure _))
                (Reads-pure 0)))
          λ e. Keeps-Reads _ _ (Reads-pure 0))

pub Keeps-write_whole : (path : Name) (bytes : Bytes) → Keeps Always (write_whole path bytes)
unfolding write_whole
Keeps-write_whole path bytes =
    Keeps-read _ _ _ (Reads-attempt _ (Reads-parse_parent path _)) λ parsed.
      Keeps-Result parsed _ _
        (λ at. Keeps-bind _ _ _ (Keeps-child_to_write at.0 at.1) λ child.
          Keeps-Option child _ _ (Keeps-Reads _ _ (Reads-pure 0)) λ file.
            Keeps-bind _ _ _ (Keeps-Reads _ _ (Reads-load file)) λ n.
              Keeps-Body _ n.body _ _ _ (λ i. Keeps-write_at_end file bytes)
                (λ y. Keeps-Reads _ _ (Reads-pure 0)) (λ t. Keeps-Reads _ _ (Reads-pure 0)))
        λ e. Keeps-Reads _ _ (Reads-pure 0)

Keeps-set_times : (f : FileId) (a m : ℕ) → Keeps Always (set_times f a m)
unfolding set_times
Keeps-set_times f a m = search (keeps_rules, Keeps-set_atime, Keeps-set_mtime) depth 12

pub Keeps-fd_filestat_set_times :
    (d a m flags : ℕ) → Keeps Always (fd_filestat_set_times d a m flags)
unfolding fd_filestat_set_times
Keeps-fd_filestat_set_times d a m flags =
    search (keeps_rules, Reads-get_open, Reads-load_open, Keeps-set_times) depth 20

pub Keeps-path_filestat_set_times :
    (d flags : ℕ) (path : Name) (a m fst : ℕ)
    → Keeps Always (path_filestat_set_times d flags path a m fst)
unfolding path_filestat_set_times
Keeps-path_filestat_set_times d flags path a m fst =
    search (keeps_rules, Reads-parse_file, Keeps-set_times) depth 20

Reads-check_map_type : (kind : ℕ) → Reads (check_map_type kind)
unfolding check_map_type
Reads-check_map_type kind =
    Reads-if _ _ _ (Reads-pure tt) (Reads-if _ _ _ Reads-crash (Reads-throw _))

pub Keeps-mmap :
    (room : Bool) (len prot flags d offset : ℕ) → Keeps Always (mmap room len prot flags d offset)
unfolding mmap
Keeps-mmap room len prot flags d offset =
    search
      (
        keeps_rules, Reads-get_open, Reads-load_open, Reads-load, Reads-check_map_type,
        Keeps-read_file,
      )
      depth 30

pub Keeps-msync :
    (region : Bytes) (prot flags d offset : ℕ) → Keeps Always (msync region prot flags d offset)
unfolding msync
Keeps-msync region prot flags d offset = search (keeps_rules, Keeps-fd_pwrite) depth 12
