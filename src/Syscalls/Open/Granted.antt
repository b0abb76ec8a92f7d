-- ===== src/Syscalls/Open/Granted.antt =====
-- The end of `doOpen`: a new open file on a data file of the memory backend, and its descriptor.
use emscripten_memfswasm_wra.Base.{
  ◌∙◌, ℕ, ◌+◌, ◌<◌, ◌≡◌, none, some, [], length, length-set, ◌==◌, if◌then◌else◌, arith,
}
use emscripten_memfswasm_wra.Memory.DataFile.{Bytes}
use emscripten_memfswasm_wra.Store.{
  FileId, File, OpenFile, Fs, memory_file, data_file, done, update, load, load_open, store_open,
  ◌>>=◌,
}
use emscripten_memfswasm_wra.Files.{notify}
use emscripten_memfswasm_wra.Table.{
  slot, create_open, make_open, free_slot, add_entry, set_entry, retain, release, get_entry,
}
use emscripten_memfswasm_wra.Table.Laws.{
  grown, put, slot-grown, slot-put, grown-length, free_slot_lowest,
}
use emscripten_memfswasm_wra.Syscalls.Io.{fd_close}
use emscripten_memfswasm_wra.Syscalls.Io.RoundTrip.{IsOpen}
use emscripten_memfswasm_wra.Paths.{get_open}

module _ (s : Fs) (c : FileId) (m : File) (b : Bytes) (flags : ℕ) (there : s.files c ≡ some m)
    (memory : m.body ≡ data_file (memory_file b)) where
  abbrev state : OpenFile
  state = record { file = c; position = 0; flags = flags; uses = 0; dirents = [] }

  abbrev made : Fs
  made = record s {
    opens = λ j. if j == s.next_open then some state else s.opens j;
    next_open = s.next_open + 1;
  }

  made-eq : create_open c flags s ≡ done s.next_open made
  unfolding create_open make_open notify load
  made-eq = ground (arith, there, memory)

  abbrev pub fd : ℕ
  fd = free_slot s.table

  abbrev pub used : OpenFile
  used = record state { uses = 1 }

  abbrev pub opened : Fs
  opened = record made {
    opens = update made.opens s.next_open (some used);
    table = put fd (some s.next_open) s.table;
  }

  added : add_entry s.next_open made ≡ done fd opened
  unfolding add_entry set_entry retain release load_open store_open
  added =
      let free : slot (grown fd s.table) fd ≡ none =
        slot-grown fd fd s.table ∙ (free_slot_lowest s.table).0 in
      ground (arith, free)

  -- The descriptor is given out.
  pub granted-eq : (create_open c flags >>= λ o. add_entry o) s ≡ done fd opened
  granted-eq = ground (arith, made-eq, added)

  -- It stands for the file from its start.
  pub granted-IsOpen : IsOpen opened fd s.next_open used m b
  unfolding get_open get_entry
  granted-IsOpen =
      let here : slot (put fd (some s.next_open) s.table) fd ≡ some s.next_open =
        slot-put fd fd (some s.next_open) s.table ∙ ground arith in
      let inside : fd < length (put fd (some s.next_open) s.table) =
        omega
          (arith, length-set (grown fd s.table) fd (some s.next_open), grown-length fd s.table) in
      record {
        entry = ground (arith, here, inside);
        opened = ground arith;
        file = there;
        memory = memory;
      }

  abbrev pub closed_again : Fs
  closed_again = record opened {
    opens = update opened.opens s.next_open (some state);
    table = put fd none opened.table;
  }

  pub close-granted : fd_close fd opened ≡ done tt closed_again
  unfolding fd_close set_entry retain release load_open store_open load notify
  close-granted =
      let o = granted-IsOpen in
      let here : slot (grown fd opened.table) fd ≡ some s.next_open =
        slot-grown fd fd opened.table ∙ slot-put fd fd (some s.next_open) s.table ∙ ground arith in
      let e = o.entry in ground (arith, e, here, there, memory)
