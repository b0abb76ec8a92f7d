-- ===== src/Shape/Calls/Descriptors.antt =====
-- Duplicating, controlling and making descriptors.
use emscripten_memfswasm_wra.Base.{ℕ, refl, false}
use emscripten_memfswasm_wra.Store.{pipe_file, data_file}
use emscripten_memfswasm_wra.Syscalls.Descriptors.{
  dup, dup3, FcntlCmd, f_dupfd, f_getfd, f_setfd, f_getfl, f_setfl, f_getlk, f_setlk, f_setlkw,
  f_other, fcntl64, make_pipe, pipe,
}
use emscripten_memfswasm_wra.Shape.{Keeps, Always, files-IsShaped}
use emscripten_memfswasm_wra.Shape.Rules.{keeps_rules, Keeps-bind}
use emscripten_memfswasm_wra.Shape.Reading.{Reads-load_open, Reads-get_open}
use emscripten_memfswasm_wra.Shape.Files.{Keeps-new_file, Keeps-weaken}
use emscripten_memfswasm_wra.Shape.Calls.Table.{Keeps-set_entry, Keeps-add_entry, Keeps-create_open}
use emscripten_memfswasm_wra.Shape.Calls.Transfers.{Keeps-set_flags}

pub Keeps-dup : (fd : ℕ) → Keeps Always (dup fd)
unfolding dup
Keeps-dup fd = search (keeps_rules, Reads-get_open, Keeps-add_entry) depth 12

pub Keeps-dup3 : (old new flags : ℕ) → Keeps Always (dup3 old new flags)
unfolding dup3
Keeps-dup3 old new flags = search (keeps_rules, Reads-get_open, Keeps-set_entry) depth 20

pub Keeps-fcntl64 : (fd : ℕ) (cmd : FcntlCmd) → Keeps Always (fcntl64 fd cmd)
unfolding fcntl64
Keeps-fcntl64 fd (f_dupfd n) = search (keeps_rules, Reads-get_open, Keeps-set_entry) depth 20
Keeps-fcntl64 fd f_getfd = search (keeps_rules, Reads-get_open) depth 12
Keeps-fcntl64 fd f_setfd = search (keeps_rules, Reads-get_open) depth 12
Keeps-fcntl64 fd f_getfl = search (keeps_rules, Reads-get_open, Reads-load_open) depth 12
Keeps-fcntl64 fd (f_setfl flags) = search (keeps_rules, Reads-get_open, Keeps-set_flags) depth 20
Keeps-fcntl64 fd f_getlk = search (keeps_rules, Reads-get_open) depth 12
Keeps-fcntl64 fd f_setlk = search (keeps_rules, Reads-get_open) depth 12
Keeps-fcntl64 fd f_setlkw = search (keeps_rules, Reads-get_open) depth 12
Keeps-fcntl64 fd f_other = search (keeps_rules, Reads-get_open) depth 12

Keeps-make_pipe : Keeps Always make_pipe
unfolding make_pipe
Keeps-make_pipe = record { at = λ s h p. files-IsShaped s _ refl refl h }

pub Keeps-pipe : Keeps Always pipe
unfolding pipe
Keeps-pipe = Keeps-bind _ _ _ Keeps-make_pipe λ p.
    Keeps-new_file (data_file (pipe_file p)) _ 0 false _ (λ y e. cc)
      λ r. Keeps-weaken _ _ (
        Keeps-new_file (data_file (pipe_file p)) _ 0 false _ (λ y e. cc)
          λ w. Keeps-weaken _ _ (search (keeps_rules, Keeps-create_open, Keeps-add_entry) depth 20))
