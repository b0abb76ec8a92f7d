-- ===== src/Fuzzer/ReadWrite.antt =====
-- `ReadWrite` of wasmfs/fuzzer/workload.cpp: one thread writes strings of one symbol to a file, the
-- others read it, and check that no read mixes two writes.
--
-- The threads interleave as a list of turns says. A turn of a thread ends at the next access to
-- memory or a file that it shares: at a test of `go` or `stop`, or behind a `pwrite` or a `pread` with
-- the checks of its result. The calls take the lock of the file, so each is one step, the `write` and
-- `read` of the memory backend at offset 0. The calls open, unlink and close of the test file are left out:
-- its bytes are the state, and there are none at first. Only the main thread and the one writer draw
-- random numbers, the one before the other starts. The size of the strings, FILE_SIZE, is an
-- argument. A thread whose `assert` fails, or that meets undefined behaviour, is `failed`.
pub mod Schedules
pub mod Turns
pub mod Ranks
pub mod Launched
pub mod Atomic
pub mod Calls
pub mod Ending
use emscripten_memfswasm_wra.Base.{
  ℕ, zero, suc, ◌+◌, ◌-◌, Bool, true, false, Option, none, some, List, [], ◌∷◌, ◌++◌, length,
  get_elem?, set, replicate, ltb, leb, ◌==◌, ◌&&◌, if◌then◌else◌,
}
use emscripten_memfswasm_wra.Memory.DataFile.{
  Bytes, Written, written, refused, out_of_bounds, write, Fetched, fetched, out_of_bounds, read,
}
use emscripten_memfswasm_wra.Fuzzer.Random.{
  Random, Gen, ◌>>=◌, pure, up_to, get_single_symbol_string,
}

abbrev pub num_readers : ℕ
num_readers = 20

abbrev pub max_work : ℕ
max_work = 10

abbrev member : ℕ → List ℕ → Bool
member b [] = false
member b (c ∷ cs) = if b == c then true else member b cs

-- `std::set::insert`
abbrev insert : ℕ → List ℕ → List ℕ
insert b seen = if member b seen then seen else b ∷ seen

-- `isSame`, from the symbols that were seen, for a target that is not empty. It leaves out the last byte.
unfoldable pub same_from : List ℕ → Bytes → Bool
same_from seen [] = true
same_from seen (b ∷ []) = true
same_from seen (b ∷ c ∷ bytes) =
    let rest = same_from (insert b seen) (c ∷ bytes) in
    if ltb 1 (length (insert b seen)) then false else rest

abbrev pub is_same : Bytes → Bool
is_same target = same_from [] target

pub data Role : Type 0 where
  writer : Role
  reader : Role

-- Where a thread is: before the test of `go`, before the test of `stop`, before its call, or at its end.
pub data Phase : Type 0 where
  waiting : Phase
  testing : Phase
  working : Phase
  ended : Phase
  failed : Phase

pub record Thread : Type 0 where
  pub role : Role
  pub phase : Phase

-- Where `execute` is: before `go.store`, in its sleep, or before the `join` of the thread of a number.
pub data Main : Type 0 where
  starting : Main
  sleeping : Main
  joining : ℕ → Main
  finished : Main

abbrev pub has_ended : Phase → Bool
has_ended ended = true
has_ended p = false

abbrev pub is_ended : Option Thread → Bool
is_ended none = false
is_ended (some t) = has_ended t.phase

-- A `join` of the thread of a number: whether there is none, or else whether it has ended.
abbrev pub joined : Bool → Bool → ℕ → Main
joined true there k = finished
joined false true k = joining (suc k)
joined false false k = joining k

-- What the threads share.
pub record Shared : Type 0 where
  pub content : Bytes
  pub rand : Random
  pub go : Bool
  pub stop : Bool

pub data Actor : Type 0 where
  executing : Actor
  worker : ℕ → Actor

pub record World : Type 0 where
  pub shared : Shared
  pub main : Main
  pub threads : List Thread

-- `work.begin()->size()`
abbrev pub head_size : List Bytes → ℕ
head_size [] = 0
head_size (text ∷ work) = length text

module _ (work : List Bytes) where
  -- The `assert` of the writer
  abbrev pub text_written : Shared → Written → Shared × Phase
  text_written s (written b) = (record s { content = b }, testing)
  text_written s (refused e) = (s, failed)
  text_written s out_of_bounds = (s, failed)

  -- `pwrite(fd, work[current].c_str(), work[current].size(), 0)`, and the `assert` behind it
  unfoldable pub write_text : Bytes → Shared → Shared × Phase
  write_text text s = text_written s (write text 0 s.content)

  abbrev pub write_found : Shared → Option Bytes → Shared × Phase
  write_found s none = (s, failed)
  write_found s (some text) = write_text text s

  -- `work[current]`
  abbrev pub write_drawn : Shared → Option (ℕ × Random) → Shared × Phase
  write_drawn s none = (s, failed)
  write_drawn s (some (current, r)) = write_found (record s { rand = r }) (get_elem? work current)

  unfoldable pub write_random : Shared → Shared × Phase
  write_random s = write_drawn s (up_to (length work) s.rand)

  -- The two checks of what a read put into the buffer, which has a zero behind `size` bytes.
  abbrev pub check_read : Bytes → Phase
  check_read b =
      if (length b == head_size work)
        && is_same (b ++ replicate (suc (head_size work) - length b) 0)
      then testing
      else failed

  abbrev pub bytes_read : Fetched → Phase
  bytes_read (fetched b) = check_read b
  bytes_read out_of_bounds = failed

  unfoldable pub read_once : Shared → Phase
  read_once s = bytes_read (read (head_size work) 0 s.content)

  -- `writer` and `reader`: a turn of a thread.
  unfoldable pub act : Shared → Role → Phase → Shared × Phase
  act s role waiting = (s, if s.go then testing else waiting)
  act s role testing = (s, if s.stop then ended else working)
  act s writer working = write_random s
  act s reader working = (s, read_once s)
  act s role ended = (s, ended)
  act s role failed = (s, failed)

  -- `execute` from `go.store(true)` on: a turn of the main thread.
  unfoldable pub main_turn : World → Main → World
  main_turn w starting = record w { shared = record w.shared { go = true }; main = sleeping }
  main_turn w sleeping = record w { shared = record w.shared { stop = true }; main = joining 0 }
  main_turn w (joining k) = record w {
    main = joined (k == length w.threads) (is_ended (get_elem? w.threads k)) k;
  }
  main_turn w finished = w

  -- A turn of a thread, with what it shares and where it is then.
  abbrev pub thread_turn : World → ℕ → Thread → World
  thread_turn w i t =
      let after = act w.shared t.role t.phase in
      record w { shared = after.0; threads = set w.threads i (record t { phase = after.1 }) }

  abbrev pub found_turn : World → ℕ → Option Thread → World
  found_turn w i none = w
  found_turn w i (some t) = thread_turn w i t

  -- A turn of the main thread or of the thread of a number.
  unfoldable pub turn : Actor → World → World
  turn executing w = main_turn w w.main
  turn (worker i) w = found_turn w i (get_elem? w.threads i)

  unfoldable pub run : List Actor → World → World
  run [] w = w
  run (a ∷ schedule) w = run schedule (turn a w)

-- `work[i] = rand.getSingleSymbolString(FILE_SIZE)`, for each of a number of strings
unfoldable pub strings : ℕ → ℕ → Gen (List Bytes)
strings size zero = pure []
strings size (suc n) = do
  text ← get_single_symbol_string size
  rest ← strings size n
  pure (text ∷ rest)

abbrev pub threads_made : List Thread
threads_made =
    record { role = writer; phase = waiting }
    ∷ replicate num_readers (record { role = reader; phase = waiting })

abbrev pub head : List Bytes → Bytes
head [] = []
head (text ∷ work) = text

-- The state when the threads are created, by what the `pwrite` to the new file did.
abbrev pub populated : Random → Written → Option World
populated r (written b) = some (record {
  shared = record { content = b; rand = r; go = false; stop = false };
  main = starting;
  threads = threads_made;
})
populated r (refused e) = none
populated r out_of_bounds = none

abbrev pub run_from : List Bytes → List Actor → Option World → Option World
run_from work schedule none = none
run_from work schedule (some w) = some (run work schedule w)

abbrev pub execute_with : List Actor → Option (List Bytes × Random) → Option World
execute_with schedule none = none
execute_with schedule (some (work, r)) =
    run_from work schedule (populated r (write (head work) 0 []))

-- `work.resize(1 + rand.upTo(MAX_WORK))`, and the loop that fills it
unfoldable pub make_work : ℕ → Gen (List Bytes)
make_work size = do n ← up_to max_work; strings size (suc n)

-- `execute`, with the turns that are taken behind the creation of the threads; `none` is a failed
-- `assert` or undefined behaviour before it.
unfoldable pub execute : ℕ → List Actor → Random → Option World
execute size schedule r = execute_with schedule (make_work size r)
