-- ===== src/Syscalls/Descriptors.antt =====
-- Descriptors: `dup`, `dup3`, `fcntl64`, `ioctl`, `pipe` and `poll` of wasmfs/syscalls.cpp.
pub mod Sharing
pub mod Closing
use emscripten_memfswasm_wra.Base.{
  ℕ, ◌+◌, ◌-◌, ◌^◌, Bool, true, false, not, ◌&&◌, ◌||◌, none, some, List, [], ◌∷◌, drop, leb, ltb,
  ◌==◌, if◌then◌else◌, bit_and, bit_or,
}
use emscripten_memfswasm_wra.Posix.{
  eacces, ebadf, einval, enotty, o_accmode, o_append, o_rdonly, o_rdwr, o_wronly, s_ifreg, s_irugo,
  s_iwugo, has,
}
use emscripten_memfswasm_wra.Store.{
  data_file, DataImpl, stdin_file, stdout_file, stderr_file, pipe_file, Body, M, done, pure, throw,
  throw_if, gets, ◌>>=◌, ◌>>◌, update, load, load_open,
}
use emscripten_memfswasm_wra.Files.{new_file, get_size}
use emscripten_memfswasm_wra.Table.{get_entry, set_entry, free_slot, add_entry, create_open}
use emscripten_memfswasm_wra.Paths.{get_open}
use emscripten_memfswasm_wra.Syscalls.Io.{set_flags}

abbrev pub o_cloexec : ℕ
o_cloexec = 0o2000000

-- `flags & !O_CLOEXEC`: the constant is not 0, so its negation is the number 0, and the test is
-- never true. It is written out as the source has it.
abbrev pub not_word : ℕ → ℕ
not_word n = if n == 0 then 1 else 0

-- `__syscall_dup3`. `newfd` is an `int`, so the words from 2^31 on are negative.
unfoldable pub dup3 : ℕ → ℕ → ℕ → M ℕ
dup3 oldfd newfd flags = do
  throw_if (has flags (not_word o_cloexec)) einval
  o ← get_open oldfd
  throw_if (leb (2 ^ 31) newfd) ebadf
  throw_if (oldfd == newfd) einval
  set_entry newfd (some o)
  pure newfd

-- `__syscall_dup`
unfoldable pub dup : ℕ → M ℕ
dup fd = do o ← get_open fd; add_entry o

-- The commands of `fcntl` that are told apart.
pub data FcntlCmd : Type 0 where
  f_dupfd : ℕ → FcntlCmd
  f_getfd f_setfd f_getfl : FcntlCmd
  f_setfl : ℕ → FcntlCmd
  f_getlk f_setlk f_setlkw f_other : FcntlCmd

-- `O_RDONLY | O_WRONLY | O_RDWR | O_CREAT | O_EXCL | O_NOCTTY | O_TRUNC | O_LARGEFILE`
abbrev pub ignored_flags : ℕ
ignored_flags = 0o101703

-- `flags` without the flags that `F_SETFL` ignores.
abbrev pub settable : ℕ → ℕ
settable flags = bit_and flags (0xffffffff - ignored_flags)

-- `__syscall_fcntl64`. `F_GETLK` stores `F_UNLCK`, which is the result here too.
unfoldable pub fcntl64 : ℕ → FcntlCmd → M ℕ
fcntl64 fd cmd = do
  o ← get_open fd
  elim cmd [
    | f_dupfd newfd ↦ do
      throw_if (leb (2 ^ 31) newfd) einval
      free ← gets (λ s. newfd + free_slot (drop newfd s.table))
      set_entry free (some o)
      pure free
    | f_getfd ↦ pure 0
    | f_setfd ↦ pure 0
    | f_getfl ↦ do state ← load_open o; pure state.flags
    | f_setfl flags ↦ do
      throw_if (not (settable flags == bit_and (settable flags) o_append)) einval
      set_flags o (settable flags)
      pure 0
    | f_getlk ↦ pure 0
    | f_setlk ↦ throw eacces
    | f_setlkw ↦ throw eacces
    | f_other ↦ throw einval
  ]

abbrev pub is_tty_data : DataImpl → Bool
is_tty_data stdin_file = true
is_tty_data stdout_file = true
is_tty_data stderr_file = true
is_tty_data _ = false

-- `isTTY`. The three standard files are one object of its class each.
abbrev pub is_tty : Body → Bool
is_tty (data_file impl) = is_tty_data impl
is_tty _ = false

-- `__syscall_ioctl`. The first argument says whether the request is one of the ten that are ignored.
unfoldable pub ioctl : Bool → ℕ → M (Unit {0})
ioctl is_ignored fd = do
  o ← get_open fd
  state ← load_open o
  n ← load state.file
  throw_if (not (is_tty n.body)) enotty
  throw_if (not is_ignored) einval

-- `std::make_shared<PipeData>`
unfoldable pub make_pipe : M ℕ
make_pipe s =
    done s.next_pipe
      (record s { pipes = update s.pipes s.next_pipe []; next_pipe = s.next_pipe + 1 })

-- `__syscall_pipe`: the descriptors of the reading and of the writing end.
unfoldable pub pipe : M (ℕ × ℕ)
pipe = do
  p ← make_pipe
  reader ← new_file (data_file (pipe_file p)) (bit_or s_irugo s_ifreg) 0 false
  writer ← new_file (data_file (pipe_file p)) (bit_or s_iwugo s_ifreg) 0 false
  open_reader ← create_open reader o_rdonly
  open_writer ← create_open writer o_wronly
  first ← add_entry open_reader
  second ← add_entry open_writer
  pure (first, second)

abbrev pub pollin : ℕ
pollin = 0x001

abbrev pub pollout : ℕ
pollout = 0x004

abbrev pub pollnval : ℕ
pollnval = 0x020

-- `struct pollfd` without its result.
pub record PollFd : Type 0 where
  pub fd : ℕ
  pub events : ℕ

-- The mask of one open file. The source names the two bits the other way round.
unfoldable pub poll_open : ℕ → ℕ → M ℕ
poll_open o events = do
  state ← load_open o
  let access = bit_and state.flags o_accmode
  let out = if has events pollout && (access == o_wronly || access == o_rdwr) then pollout else 0
  if has events pollin && (access == o_rdonly || access == o_rdwr)
      then (do size ← get_size state.file; pure (if ltb 0 size then bit_or out pollin else out))
      else pure out

-- A round of the loop of `__syscall_poll`. Negative descriptors are ignored.
unfoldable pub poll_one : PollFd → M ℕ
poll_one p = if leb (2 ^ 31) p.fd then pure 0 else do
  entry ← get_entry p.fd
  elim entry [ none ↦ pure pollnval | some o ↦ poll_open o p.events ]

-- `__syscall_poll`: the masks, and the number of those that are not 0.
unfoldable pub poll : List PollFd → M (List ℕ × ℕ)
poll [] = pure ([], 0)
poll (p ∷ ps) = do
  mask ← poll_one p
  (masks, nonzero) ← poll ps
  pure (mask ∷ masks, (if mask == 0 then 0 else 1) + nonzero)
