-- ===== src/Tests/Node.antt =====
-- The backend over Node.
use emscripten_memfswasm_wra.Base.{◌+◌, ◌≡◌, inl, inr, refl, none, some, [], ◌∷◌, arith, length}
use emscripten_memfswasm_wra.Base.Names.{codes}
use emscripten_memfswasm_wra.Posix.{o_rdonly, o_wronly}
use emscripten_memfswasm_wra.Backends.Embedder.{descriptor, opened, closed, ok, returned}
use emscripten_memfswasm_wra.Backends.Node.{NodeHost, NodeState, node_open, node_close, open_state}
use emscripten_memfswasm_wra.Backends.Node.Descriptors.{
  Implements, new_state, Reached, start, open_done, node-Implements,
}

abbrev library : NodeHost
library = record {
  open_file = λ k path mode. ok (20 + k);
  close = λ k fd. 0;
  stat_size = λ k path. some 0;
  fstat_size = λ k fd. some 0;
  read = λ k fd len pos. ok [];
  write = λ k fd buf pos. ok (length buf);
  get_mode = λ k path. none;
  unlink = λ k path. 0;
  rmdir = λ k path. 0;
  insert_file = λ k path mode. 0;
  insert_directory = λ k path mode. 0;
  readdir = λ k path. ok [];
}

abbrev unopened : NodeState
unopened = new_state (codes "f")

abbrev reading : NodeState
reading = record unopened {
  open_count = 1;
  open_flags = 0;
  fd = ok 20;
  calls = 1;
  log = opened (descriptor 20) ∷ [];
}

-- A second open for writing replaces the descriptor.
abbrev replaced : NodeState
replaced = record unopened {
  open_count = 2;
  open_flags = 1;
  fd = ok 21;
  calls = 3;
  log = closed (descriptor 20) ∷ opened (descriptor 21) ∷ opened (descriptor 20) ∷ [];
}

open_reading : open_state library o_rdonly unopened ≡ returned tt reading
unfolding open_state node_open
open_reading = refl

open_replaced : open_state library o_wronly reading ≡ returned tt replaced
unfolding open_state node_open node_close
open_replaced = refl

reached_replaced : Reached library (codes "f") replaced (0 + 1 + 1)
reached_replaced =
    open_done reading replaced (0 + 1) o_wronly
      (open_done unopened reading 0 o_rdonly start (inl refl) (omega arith) open_reading)
      (inr (inl refl)) (omega arith) open_replaced

node-Implements_example : Implements replaced (0 + 1 + 1)
node-Implements_example = node-Implements library (codes "f") replaced (0 + 1 + 1) reached_replaced
