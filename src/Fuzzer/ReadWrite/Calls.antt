-- ===== src/Fuzzer/ReadWrite/Calls.antt =====
-- That the calls of the workload do on a file of the memory backend what its turns say.
use emscripten_memfswasm_wra.Base.{
  ℕ, ◌≤◌, ◌<◌, ◌≡◌, ap, ◌∙◌, refl, sym, subst, false, List, [], ◌∷◌, length, arith, append-nil,
  take_all,
}
use emscripten_memfswasm_wra.Memory.DataFile.{Bytes, max_size, read, fetched}
use emscripten_memfswasm_wra.Memory.DataFile.Laws.{after_write, read-eq}
use emscripten_memfswasm_wra.Store.{Fs, File, OpenFile, done, data_file, memory_file}
use emscripten_memfswasm_wra.Syscalls.Io.{Ciovec, fd_pwrite, fd_pread}
use emscripten_memfswasm_wra.Syscalls.Io.Writing.{gather}
use emscripten_memfswasm_wra.Syscalls.Io.RoundTrip.{
  IsOpen, pwritten, pwrite-eq, pread-eq, get_open-table,
}
use emscripten_memfswasm_wra.Fuzzer.Random.Strings.{IsUniform}
use emscripten_memfswasm_wra.Fuzzer.ReadWrite.{Shared, write_text}
use emscripten_memfswasm_wra.Fuzzer.ReadWrite.Atomic.{
  IsWhole, write_text-eq, length-IsUniform, after_write-whole,
}

abbrev pub one_buffer : Bytes → List Ciovec
one_buffer text = record { is_null = false; bytes = text } ∷ []

gather-one_buffer : (text : Bytes) → gather (one_buffer text) ≡ text
gather-one_buffer text = append-nil text

-- A `pwrite` of a string of the work at 0, through an open descriptor on a file of the memory backend
-- that holds the bytes of the workload, transfers all of it and leaves the file with the bytes of the
-- turn of the writer, and a `pread` at 0 returns the bytes of the workload and changes nothing. The
-- bytes are one symbol repeated, not none, and fit into a vector, and so are those of the string.
pub calls_turn :
    (size : ℕ) (work : List Bytes) (text : Bytes) (shared : Shared) (s : Fs) (fd o : ℕ)
    (state : OpenFile) (n : File)
    → 0 < size
    → size ≤ max_size
    → IsUniform size text
    → IsWhole size shared
    → IsOpen s fd o state n shared.content
    → ((t : Fs) × (m : File) × (fd_pwrite fd (one_buffer text) 0 s ≡ done size t)
        × IsOpen t fd o state m (write_text work text shared).0.content)
      × (fd_pread fd (record { is_null = false; len = size } ∷ []) 0 s
          ≡ done (shared.content ∷ [], size) s)
calls_turn size work text shared s fd o state n pos bound u h here =
    let lt = length-IsUniform size text u in
    let lc = length-IsUniform size shared.content h.0 in
    let g : gather (one_buffer text) ≡ text = gather-one_buffer text in
    let whole : after_write (gather (one_buffer text)) 0 shared.content
        ≡ (write_text work text shared).0.content =
      ap (λ b. after_write b 0 shared.content) g
      ∙ after_write-whole text shared.content (omega (arith, lt, lc))
      ∙ sym (ap (λ a. a.0.content) (write_text-eq size bound work text shared u h)) in
    let lg : length (gather (one_buffer text)) ≡ size = ap length g ∙ lt in
    let done_pwrite =
      pwrite-eq s fd o state n shared.content (record { is_null = false; bytes = text }) [] 0 here
        (omega (arith, lc, bound)) (omega (arith, lg, bound)) (refl, tt) (omega (arith, lg, pos)) in
    let fetch : read (length shared.content) 0 shared.content ≡ fetched shared.content =
      read-eq (length shared.content) 0 shared.content (omega (arith, lc, bound))
        (omega (arith, lc, bound))
      ∙ ap fetched (take_all (length shared.content) shared.content (omega arith)) in
    let t : Fs =
      pwritten s state.file n (after_write (gather (one_buffer text)) 0 shared.content) in
    let done_pread =
      pread-eq s fd o state n shared.content shared.content 0 here (omega (arith, lc, bound))
        (omega arith) fetch in
    (
      (
        t,
        record n {
          body = data_file (memory_file (after_write (gather (one_buffer text)) 0 shared.content));
          mtime = s.host.date_now s.calls;
        },
        done_pwrite ∙ ap (λ k. done k t) lg,
        record {
          entry = get_open-table fd o s t refl here.entry;
          opened = here.opened;
          file = ground arith;
          memory = ap (λ b. data_file (memory_file b)) whole;
        },
      ),
      subst
          (λ k.
            fd_pread fd (record { is_null = false; len = k } ∷ []) 0 s
            ≡ done (shared.content ∷ [], k) s)
          lc done_pread,
    )
