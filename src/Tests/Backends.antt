-- ===== src/Tests/Backends.antt =====
-- The backends of the embedder, and the one that ignores the case of names.
use emscripten_memfswasm_wra.Base.{
  ◌+◌, ◌≡◌, ◌≢◌, ◌⊎◌, inl, inr, refl, true, false, [], ◌∷◌, arith, length,
}
use emscripten_memfswasm_wra.Posix.{o_rdonly, o_rdwr, eio}
use emscripten_memfswasm_wra.Backends.Embedder.{
  access, blob, opened, closed, ok, negative, Opens, after_open, returned, refused, unreachable,
}
use emscripten_memfswasm_wra.Backends.Opfs.{
  OpfsHost, OpenState, none_kind, access_kind, blob_kind, open_access, open_blob, close_blob,
  first_open, upgrade, open_state, close_state,
}
use emscripten_memfswasm_wra.Backends.Opfs.Objects.{read, write, flush, get_size, set_size}
use emscripten_memfswasm_wra.Backends.Opfs.Handles.{
  Implements, Reached, start, open_done, reached-Implements,
}
use emscripten_memfswasm_wra.Backends.Opfs.Transfers.{reached_transfers}

abbrev library : OpfsHost
library = record {
  open_access = λ k file. ok (10 + k);
  open_blob = λ k file. ok (10 + k);
  close_access = λ k id. ok tt;
  get_size_file = λ k id. 0;
  get_size_access = λ k id. 0;
  get_size_blob = λ k id. 0;
  set_size_file = λ k id size. ok tt;
  set_size_access = λ k id size. ok tt;
  read_access = λ k id len pos. ok [];
  read_blob = λ k id len pos. ok [];
  write_access = λ k id buf pos. ok (length buf);
  flush_access = λ k id. ok tt;
  get_child = λ k dir name. (1, ok 2);
  insert_file = λ k dir name. ok 2;
  insert_directory = λ k dir name. ok 2;
  move_file = λ k file dir name. ok tt;
  remove_child = λ k dir name. ok tt;
  get_entries = λ k dir. ok [];
}

abbrev unopened : OpenState
unopened = record { kind = none_kind; id = negative 1; open_count = 0; calls = 0; log = [] }

abbrev no_opens : Opens
no_opens = record { count = 0; writable = false }

-- Open for reading, and then for writing too.
abbrev reading : OpenState
reading = record {
  kind = blob_kind;
  id = ok 10;
  open_count = 1;
  calls = 1;
  log = opened (blob 10) ∷ [];
}

abbrev upgraded : OpenState
upgraded = record {
  kind = access_kind;
  id = ok 11;
  open_count = 2;
  calls = 3;
  log = closed (blob 10) ∷ opened (access 11) ∷ opened (blob 10) ∷ [];
}

open_reading : open_state library 7 o_rdonly unopened ≡ returned tt reading
unfolding open_state first_open open_blob
open_reading = refl

open_upgraded : open_state library 7 o_rdwr reading ≡ returned tt upgraded
unfolding open_state upgrade open_access close_blob
open_upgraded = refl

reached_upgraded : Reached library 7 upgraded (after_open true (after_open false no_opens))
reached_upgraded =
    open_done reading upgraded (after_open false no_opens) o_rdwr
      (open_done unopened reading no_opens o_rdonly start (inl refl) (omega arith) open_reading)
      (inr (inr refl)) (omega arith) open_upgraded

reached-Implements_example : Implements upgraded (after_open true (after_open false no_opens))
reached-Implements_example =
    reached-Implements library 7 upgraded (after_open true (after_open false no_opens))
      reached_upgraded

reached_transfers_example :
    (open_state library 7 o_rdonly upgraded ≢ unreachable)
    × (close_state library upgraded ≢ unreachable)
    × (read library 3 0 upgraded ≢ unreachable)
    × (flush library upgraded ≢ unreachable)
    × (get_size library 7 upgraded ≢ unreachable)
    × (set_size library 7 5 upgraded ≢ unreachable)
    × (((true ≡ true)
          × (upgraded.kind ≡ access_kind)
          × (write library (1 ∷ []) 0 upgraded ≢ unreachable))
        ⊎ ((true ≡ false)
            × (upgraded.kind ≡ blob_kind)
            × (set_size library 7 5 upgraded ≡ refused eio upgraded)))
reached_transfers_example =
    reached_transfers library 7 upgraded (after_open true (after_open false no_opens)) o_rdonly 3 0
      5 (1 ∷ []) reached_upgraded (omega arith) (inl refl)
