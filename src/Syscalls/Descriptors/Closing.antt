-- ===== src/Syscalls/Descriptors/Closing.antt =====
-- `__wasi_fd_close`: which descriptors are open afterwards.
use emscripten_memfswasm_wra.Base.{
  ℕ, ◌≡◌, ◌≢◌, sym, ap, ◌∙◌, Option, none, some, ◌==◌, if◌then◌else◌, arith,
}
use emscripten_memfswasm_wra.Store.{FileId, Fs, M, done, load}
use emscripten_memfswasm_wra.Store.Bind.{bind-done, done-injective}
use emscripten_memfswasm_wra.Files.{notify}
use emscripten_memfswasm_wra.Table.{slot, set_entry}
use emscripten_memfswasm_wra.Table.Laws.{set_entry-table, slot-put}
use emscripten_memfswasm_wra.Paths.{get_open}
use emscripten_memfswasm_wra.Syscalls.Io.{fd_close}
use emscripten_memfswasm_wra.Syscalls.Descriptors.Sharing.{get_open-slot}

notify-same : (f : FileId) (s t : Fs) → notify f s ≡ done tt t → s ≡ t
unfolding notify load
notify-same f s t h = ground arith

closee-same :
    (c : Option FileId) (s t : Fs)
    → (elim c as (λ _. M (Unit {0})) [ none ↦ λ u. done tt u | some f ↦ notify f ]) s ≡ done tt t
    → s ≡ t
closee-same none s t h = (done-injective h).1
closee-same (some f) s t h = notify-same f s t h

-- A close that succeeds was of an open descriptor, which is free afterwards. Every other descriptor
-- is as before, also one that refers to the same open file.
close_frees :
    (s t : Fs) (fd j : ℕ)
    → fd_close fd s ≡ done tt t
    → (slot s.table fd ≢ none) × (slot t.table j ≡ (if j == fd then none else slot s.table j))
unfolding fd_close
close_frees s t fd j h =
    let (o, u, a, k) = bind-done (get_open fd s) _ h in
    let (here, same) = get_open-slot fd o s u a in
    let (c, v, b, l) = bind-done (set_entry fd none u) _ k in
    let e : v ≡ t = closee-same c v t l in
    (
      λ q. cc,
      ap (λ w. slot w.table j) (sym e)
          ∙ ap (λ w. slot w j) (set_entry-table fd none u v c b)
          ∙ slot-put fd j none u.table
          ∙ ap (λ w. if j == fd then none else slot w.table j) (sym same),
    )
