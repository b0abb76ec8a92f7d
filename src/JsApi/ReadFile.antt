-- ===== src/JsApi/ReadFile.antt =====
-- `_wasmfs_read_file`, over the calls of the C library that it makes.
pub mod Contents
use emscripten_memfswasm_wra.Base.{ℕ, List, [], ◌∷◌, false}
use emscripten_memfswasm_wra.Base.Names.{Name}
use emscripten_memfswasm_wra.Posix.{o_rdonly}
use emscripten_memfswasm_wra.Memory.DataFile.{Bytes}
use emscripten_memfswasm_wra.Store.{M, Result, value, error, pure, crash, ◌>>=◌, ◌>>◌}
use emscripten_memfswasm_wra.Syscalls.Metadata.{Stat}

-- The functions of the C library: `stat`, `open`, `pread` with the bytes that it puts into the
-- buffer, and `close`. An error is a negative result.
pub record Libc : Type 0 where
  pub stat : Name → M (Result Stat)
  pub open_path : Name → ℕ → M (Result ℕ)
  pub pread : ℕ → ℕ → ℕ → M (Result Bytes)
  pub close : ℕ → M (Result (Unit {0}))

abbrev pub bytes_read : Result Bytes → Bytes
bytes_read (value bytes) = bytes
bytes_read (error e) = []

-- The size that stands in the first bytes of the buffer, and the bytes that were read behind it. The
-- number of bytes read is not looked at.
unfoldable pub read_whole : Libc → Name → M (ℕ × Bytes)
read_whole libc path = do
  file ← libc.stat path
  elim file [
    | error e ↦ crash
    | value st ↦ do
      opened ← libc.open_path path o_rdonly
      elim opened [
        | error e ↦ crash
        | value fd ↦ do
          got ← libc.pread fd st.size 0
          err ← libc.close fd
          elim err [ error e ↦ crash | value _ ↦ pure (st.size, bytes_read got) ]
      ]
  ]
