-- ===== src/Tests/Transfers.antt =====
-- Seeking and pipes.
use emscripten_memfswasm_wra.Base.{◌≡◌, refl, false, none, some, [], ◌∷◌, arith}
use emscripten_memfswasm_wra.Store.{Fs, File, pipe_file, data_file, done}
use emscripten_memfswasm_wra.Files.{read_file, write_file}
use emscripten_memfswasm_wra.Files.Special.{pipe_fifo}
use emscripten_memfswasm_wra.Syscalls.Io.{fd_seek, fd_read, seek_set}
use emscripten_memfswasm_wra.Syscalls.Io.Seeking.{seek_read}
use emscripten_memfswasm_wra.Tests.{small, open_a, file_of, three, state_of}
use emscripten_memfswasm_wra.Tests.Descriptors.{file_a, small-IsOpen}

seek_read_example :
    (t : Fs) × (u : Fs) × (fd_seek 0 1 seek_set small ≡ done 1 t)
    × (fd_read 0 (record { is_null = false; len = 9 } ∷ []) t ≡ done ((2 ∷ 3 ∷ []) ∷ [], 2) u)
    × (u.opens 0 ≡ some (record open_a { position = 3 }))
    × (u.files ≡ small.files)
seek_read_example =
    seek_read small 0 0 open_a file_a three 1 9 small-IsOpen refl (omega arith) (omega arith)
      (omega arith)

abbrev pipe_end : File
pipe_end = file_of (data_file (pipe_file 0)) none

abbrev piped : Fs
piped = record (state_of (λ j. some pipe_end) 2) { pipes = λ _. 5 ∷ [] }

pipe_fifo_example :
    (t : Fs) × (u : Fs) × (write_file 1 (6 ∷ 7 ∷ []) 0 piped ≡ done 2 t)
    × (read_file 0 2 0 t ≡ done (5 ∷ 6 ∷ [], 2) u)
    × (u.pipes 0 ≡ 7 ∷ [])
    × (u.files ≡ piped.files)
pipe_fifo_example =
    pipe_fifo piped 0 1 pipe_end pipe_end 0 (6 ∷ 7 ∷ []) 2 0 0 refl refl refl refl (omega arith)
