-- ===== src/Backends/JsImpl.antt =====
-- The backends whose files are implemented by a JavaScript library: wasmfs/js_impl_backend.h and
-- wasmfs/proxied_async_js_impl_backend.h. The functions `_wasmfs_jsimpl_*` and
-- `_wasmfs_jsimpl_async_*` are the parameter.
--
-- An answer is the word that the library returns or, in the second file, stores in `result` before it
-- finishes the call: until then `ProxyWorker` keeps the caller waiting. A file is its pointer, which the
-- library uses as an index.
pub mod Fetch
use emscripten_memfswasm_wra.Base.{ℕ, ◌+◌, ◌-◌, ◌^◌, ltb, if◌then◌else◌, List, [], ◌∷◌}
use emscripten_memfswasm_wra.Base.Names.{Name}
use emscripten_memfswasm_wra.Memory.DataFile.{Bytes}
use emscripten_memfswasm_wra.Backends.Embedder.{
  Ended, returned, unreachable, Act, pure, never, ◌>>=◌, ◌>>◌,
}

-- The functions of the library, with the number of the call first, then the backend and the file.
pub record JsImpl : Type 0 where
  pub write : ℕ → ℕ → ℕ → Bytes → ℕ → ℕ
  pub read : ℕ → ℕ → ℕ → ℕ → ℕ → Bytes × ℕ
  pub get_size : ℕ → ℕ → ℕ → ℕ
  pub set_size : ℕ → ℕ → ℕ → ℕ → ℕ

-- Those of the second file, which store their results.
pub record JsAsync : Type 0 where
  pub write : ℕ → ℕ → ℕ → Bytes → ℕ → ℕ
  pub read : ℕ → ℕ → ℕ → ℕ → ℕ → Bytes × ℕ
  pub get_size : ℕ → ℕ → ℕ → ℕ

abbrev pub sign_extend : ℕ → ℕ
sign_extend n = if ltb n (2 ^ 31) then n else n + (2 ^ 64 - 2 ^ 32)

-- A call of `alloc_file` or `free_file`.
pub data FileEvent : Type 0 where
  alloc free : ℕ → ℕ → FileEvent

pub record JsState : Type 0 where
  pub calls : ℕ
  pub log : List FileEvent

abbrev pub ask : {A : Type 0} → (ℕ → A) → Act JsState A
ask f st = returned (f st.calls) (record st { calls = st.calls + 1 })

abbrev pub note : FileEvent → Act JsState (Unit {0})
note e st = returned tt (record st { log = e ∷ st.log })

-- `JSImplFile`, with the backend and the file as they are passed on.
module _ (js : JsImpl) (backend file : ℕ) where
  unfoldable pub construct : Act JsState (Unit {0})
  construct = note (alloc backend file)

  unfoldable pub destruct : Act JsState (Unit {0})
  destruct = note (free backend file)

  unfoldable pub open_file : ℕ → Act JsState ℕ
  open_file flags = pure 0

  unfoldable pub close_file : Act JsState ℕ
  close_file = pure 0

  unfoldable pub write_file : Bytes → ℕ → Act JsState ℕ
  write_file buf offset = ask (λ k. js.write k backend file buf offset)

  unfoldable pub read_file : ℕ → ℕ → Act JsState (Bytes × ℕ)
  read_file len offset = ask (λ k. js.read k backend file len offset)

  unfoldable pub flush_file : Act JsState ℕ
  flush_file = pure 0

  -- An `int`, as an `off_t`
  unfoldable pub get_size : Act JsState ℕ
  get_size = ask (λ k. sign_extend (js.get_size k backend file))

  unfoldable pub set_size : ℕ → Act JsState ℕ
  set_size size = ask (λ k. js.set_size k backend file size)

-- `ProxiedAsyncJSImplFile`, in the same way.
module _ (js : JsAsync) (backend file : ℕ) where
  unfoldable pub construct_async : Act JsState (Unit {0})
  construct_async = note (alloc backend file)

  unfoldable pub destruct_async : Act JsState (Unit {0})
  destruct_async = note (free backend file)

  unfoldable pub write_async : Bytes → ℕ → Act JsState ℕ
  write_async buf offset = ask (λ k. js.write k backend file buf offset)

  unfoldable pub read_async : ℕ → ℕ → Act JsState (Bytes × ℕ)
  read_async len offset = ask (λ k. js.read k backend file len offset)

  unfoldable pub get_size_async : Act JsState ℕ
  get_size_async = ask (λ k. js.get_size k backend file)

  unfoldable pub set_size_async : ℕ → Act JsState ℕ
  set_size_async size = never
