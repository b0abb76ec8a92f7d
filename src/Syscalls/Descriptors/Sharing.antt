-- ===== src/Syscalls/Descriptors/Sharing.antt =====
-- `dup` and `dup3`: descriptors that share one open file.
use emscripten_memfswasm_wra.Base.{
  ◌⊎◌, ℕ, ◌≤◌, ◌≡◌, ◌≢◌, refl, sym, ap, ◌∙◌, none, some, leb, ◌==◌, if◌then◌else◌, ◌^◌, Bool, true,
  false, arith,
}
use emscripten_memfswasm_wra.Posix.{ebadf, einval, has}
use emscripten_memfswasm_wra.Store.{Fs, done, throw_if}
use emscripten_memfswasm_wra.Store.Bind.{bind-done, done-injective}
use emscripten_memfswasm_wra.Table.{slot, get_entry, set_entry}
use emscripten_memfswasm_wra.Table.Laws.{add_entry-lowest, set_entry-table, slot-put}
use emscripten_memfswasm_wra.Paths.{get_open}
use emscripten_memfswasm_wra.Syscalls.Descriptors.{dup, dup3, not_word, o_cloexec}

pub get_open-slot :
    (fd o : ℕ) (s t : Fs) → get_open fd s ≡ done o t → (slot s.table fd ≡ some o) × (s ≡ t)
unfolding get_open get_entry
get_open-slot fd o s t h = (ground arith, ground arith)

throw_if-done :
    (test : Bool) (e : ℕ) (s t : Fs) → throw_if test e s ≡ done tt t → (test ≡ false) × (s ≡ t)
throw_if-done false e s t h = (refl, (done-injective h).1)
throw_if-done true e s t h = cc

-- `dup` gives out a descriptor that was free, and below which none was. It then refers to the open
-- file of the old one, which was open, and every other descriptor is as before.
pub dup_shares :
    (s t : Fs) (fd new j : ℕ)
    → dup fd s ≡ done new t
    → (slot s.table fd ≢ none)
      × (slot s.table new ≡ none)
      × ((slot s.table j ≢ none) ⊎ (new ≤ j))
      × (slot t.table j ≡ (if j == new then slot s.table fd else slot s.table j))
unfolding dup
dup_shares s t fd new j h =
    let (o, u, r, k) = bind-done (get_open fd s) _ h in
    let (here, same) = get_open-slot fd o s u r in
    let (free, low, rest) = add_entry-lowest o u t new j k in
    (
      λ e. cc,
      rw same free,
      rw same low,
      rest
          ∙ ap (λ w. if j == new then w else slot u.table j) (sym here)
          ∙ ap (λ w. if j == new then slot s.table fd else slot w.table j) (sym same),
    )

-- A `dup3` that succeeds returns the descriptor it was given, which is not the old one. It then
-- refers to the open file of the old one, and every other descriptor is as before.
pub dup3_shares :
    (s t : Fs) (fd new flags r j : ℕ)
    → dup3 fd new flags s ≡ done r t
    → (r ≡ new)
      × ((fd == new) ≡ false)
      × (slot s.table fd ≢ none)
      × (slot t.table j ≡ (if j == new then slot s.table fd else slot s.table j))
unfolding dup3
dup3_shares s t fd new flags r j h =
    let (x, s0, a, h0) = bind-done (throw_if (has flags (not_word o_cloexec)) einval s) _ h in
    let (o, s1, b, h1) = bind-done (get_open fd s0) _ h0 in
    let (y, s2, c, h2) = bind-done (throw_if (leb (2 ^ 31) new) ebadf s1) _ h1 in
    let (z, s3, d, h3) = bind-done (throw_if (fd == new) einval s2) _ h2 in
    let (w, s4, e, h4) = bind-done (set_entry new (some o) s3) _ h3 in
    let e0 = throw_if-done _ _ _ _ a in
    let (here, e1) = get_open-slot fd o s0 s1 b in
    let e2 = throw_if-done _ _ _ _ c in
    let e3 = throw_if-done _ _ _ _ d in
    let before : s ≡ s3 = e0.1 ∙ e1 ∙ e2.1 ∙ e3.1 in
    let there : slot s.table fd ≡ some o = ap (λ q. slot q.table fd) e0.1 ∙ here in
    (
      sym (done-injective h4).0,
      e3.0,
      λ q. cc,
      ap (λ q. slot q.table j) (sym (done-injective h4).1)
          ∙ ap (λ q. slot q j) (set_entry-table new (some o) s3 s4 w e)
          ∙ slot-put new j (some o) s3.table
          ∙ ap (λ q. if j == new then q else slot s3.table j) (sym there)
          ∙ ap (λ q. if j == new then slot s.table fd else slot q.table j) (sym before),
    )
