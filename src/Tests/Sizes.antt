-- ===== src/Tests/Sizes.antt =====
-- `ftruncate64` and `fallocate` on the file of the small state, which has three bytes.
use emscripten_memfswasm_wra.Base.{◌≡◌, ◌⊎◌, true, false, [], ◌∷◌, arith}
use emscripten_memfswasm_wra.Posix.{einval, ebadf, has}
use emscripten_memfswasm_wra.Store.{Fs, done, fail}
use emscripten_memfswasm_wra.Syscalls.Open.{perm_write}
use emscripten_memfswasm_wra.Syscalls.Io.{fd_pread}
use emscripten_memfswasm_wra.Syscalls.Metadata.{ftruncate64, fallocate}
use emscripten_memfswasm_wra.Syscalls.Metadata.Sizes.{ftruncate_read, fallocate_keeps}
use emscripten_memfswasm_wra.Tests.{small, open_a, three}
use emscripten_memfswasm_wra.Tests.Descriptors.{file_a, small-IsOpen}

ftruncate_read_example :
    ((has file_a.mode perm_write ≡ true)
      × (t : Fs) × (ftruncate64 0 4 small ≡ done tt t)
      × (fd_pread 0 (record { is_null = false; len = 4 } ∷ []) 0 t
          ≡ done ((1 ∷ 2 ∷ 3 ∷ 0 ∷ []) ∷ [], 4) t))
    ⊎ ((has file_a.mode perm_write ≡ false) × (ftruncate64 0 4 small ≡ fail einval small))
ftruncate_read_example = ftruncate_read small 0 0 open_a file_a three small-IsOpen 4 (omega arith)

fallocate_keeps_example :
    ((has file_a.mode perm_write ≡ true)
      × (t : Fs) × (fallocate 0 1 4 small ≡ done tt t)
      × (fd_pread 0 (record { is_null = false; len = 5 } ∷ []) 0 t
          ≡ done ((1 ∷ 2 ∷ 3 ∷ 0 ∷ 0 ∷ []) ∷ [], 5) t))
    ⊎ ((has file_a.mode perm_write ≡ false) × (fallocate 0 1 4 small ≡ fail ebadf small))
fallocate_keeps_example =
    fallocate_keeps small 0 0 open_a file_a three small-IsOpen 1 4 (omega arith) (omega arith)
      (omega arith)
