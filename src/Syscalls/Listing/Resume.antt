-- ===== src/Syscalls/Listing/Resume.antt =====
-- Listing a directory in parts: which entries a call of `getdents64` puts into the buffer.
use emscripten_memfswasm_wra.Base.{
  ℕ, zero, suc, ◌+◌, ◌*◌, ◌≤◌, ◌<◌, ◌≡◌, sym, ap, ◌∙◌, List, [], ◌∷◌, ◌++◌, length-take, length,
  take, drop, leb, ltb, arith, true, false, some, refl, ◌/◌, ◌%◌, ◌^◌, ◌==◌, length-drop,
  length-append,
}
use emscripten_memfswasm_wra.Store.{
  Entry, FileId, File, Fs, OpenFile, done, update, is_directory, load, load_open, store_open,
}
use emscripten_memfswasm_wra.Paths.{get_open}
use emscripten_memfswasm_wra.Syscalls.Io.{set_position}
use emscripten_memfswasm_wra.Syscalls.Io.RoundTrip.{get_open-table}
use emscripten_memfswasm_wra.Syscalls.Listing.{Dirent, dirent_size, dirent_type, fill, getdents64}

-- The records of entries from an index on.
abbrev dirent : ℕ → Entry → Dirent
dirent index e = record {
  ino = e.ino;
  off = index + 1;
  reclen = dirent_size;
  kind = dirent_type e.kind;
  name = e.name;
}

abbrev records : ℕ → List Entry → List Dirent
records index [] = []
records index (e ∷ es) = dirent index e ∷ records (index + 1) es

-- Room for `k` records and not for one more gives the first `k` entries that are left.
fill-take :
    (count index used k : ℕ) (es : List Entry)
    → used + k * 280 ≤ count
    → count < used + k * 280 + 280
    → fill count index used es
      ≡ (records index (take k es), index + length (take k es), used + length (take k es) * 280)
unfolding fill
fill-take count index used zero [] h l = ground arith
fill-take count index used (suc k) [] h l = ground arith
fill-take count index used zero (e ∷ es) h l = ground arith
fill-take count index used (suc k) (e ∷ es) h l =
    let r = fill-take count (index + 1) (used + dirent_size) k es (omega arith) (omega arith) in
    let fits : leb (used + dirent_size) count ≡ true = ground arith in
    let i : index + 1 + length (take k es) ≡ index + suc (length (take k es)) = omega arith in
    let u : used + dirent_size + length (take k es) * 280 ≡ used + suc (length (take k es)) * 280 =
      omega arith in
    rw (fits, r, i, u)

take-add {ℓ} :
    {A : Type ℓ} (k m : ℕ) (xs : List A) → take k xs ++ take m (drop k xs) ≡ take (k + m) xs
take-add zero m xs = let e : 0 + m ≡ m = omega arith in rw e
take-add (suc k) zero [] = let e : suc k + 0 ≡ suc k = omega arith in rw e
take-add (suc k) (suc m) [] = let e : suc k + suc m ≡ suc (k + suc m) = omega arith in rw e
take-add (suc k) m (x ∷ xs) =
    let e : suc k + m ≡ suc (k + m) = omega arith in rw e (ap (λ t. x ∷ t) (take-add k m xs))

records-append :
    (index : ℕ) (es fs : List Entry)
    → records index (es ++ fs) ≡ records index es ++ records (index + length es) fs
records-append index [] fs = let e : index + 0 ≡ index = omega arith in rw e
records-append index (e' ∷ es) fs =
    let e : index + 1 + length es ≡ index + suc (length es) = omega arith in
    ap (λ t. dirent index e' ∷ t) (rw e at (records-append (index + 1) es fs))

drop-add {ℓ} : {A : Type ℓ} (k m : ℕ) (xs : List A) → drop m (drop k xs) ≡ drop (k + m) xs
drop-add zero m xs = let e : 0 + m ≡ m = omega arith in rw e
drop-add (suc k) zero [] = let e : suc k + 0 ≡ suc k = omega arith in rw e
drop-add (suc k) (suc m) [] = let e : suc k + suc m ≡ suc (k + suc m) = omega arith in rw e
drop-add (suc k) m (x ∷ xs) =
    let e : suc k + m ≡ suc (k + m) = omega arith in rw e (drop-add k m xs)

drop-length-take {ℓ} : {A : Type ℓ} (k : ℕ) (xs : List A) → drop (length (take k xs)) xs ≡ drop k xs
drop-length-take zero xs = refl
drop-length-take (suc k) [] = refl
drop-length-take (suc k) (x ∷ xs) = drop-length-take k xs

-- The descriptor is open on a directory with a parent, and its position and the size of its listing
-- are within an `int`.
pub record Lists (s : Fs) (fd o : ℕ) (state : OpenFile) (n : File) (parent : FileId) : Type 0 where
  pub entry : get_open fd s ≡ done o s
  pub opened : s.opens o ≡ some state
  pub file : s.files state.file ≡ some n
  pub kind : is_directory n.body ≡ true
  pub above : n.parent ≡ some parent
  pub start : state.position < 2 ^ 31
  pub size : length state.dirents < 2 ^ 31

-- The state of the open file past some more entries.
abbrev pub moved : OpenFile → ℕ → OpenFile
moved state k = record state {
  position = state.position + length (take k (drop state.position state.dirents));
}

abbrev pub listed : Fs → ℕ → OpenFile → Fs
listed s o state = record s { opens = update s.opens o (some state) }

moved_bound :
    (state : OpenFile) (k : ℕ)
    → state.position < 2 ^ 31
    → length state.dirents < 2 ^ 31
    → (moved state k).position < 2 ^ 31
moved_bound state k h l = omega (
  arith,
  length-take k (drop state.position state.dirents),
  length-drop state.position state.dirents,
)

length-records : (index : ℕ) (es : List Entry) → length (records index es) ≡ length es
length-records index [] = refl
length-records index (e ∷ es) = ap suc (length-records (index + 1) es)

-- One call returns the next entries, as many as there is room for, and moves past them.
getdents64-eq :
    (s : Fs) (fd o : ℕ) (state : OpenFile) (n : File) (parent : FileId) (count : ℕ)
    → Lists s fd o state n parent
    → 280 ≤ count
    → getdents64 fd count s
      ≡ done
          (
            records state.position (take (count / 280) (drop state.position state.dirents)),
            length (take (count / 280) (drop state.position state.dirents)) * 280,
          )
          (listed s o (moved state (count / 280)))
unfolding getdents64 load_open load store_open set_position
getdents64-eq s fd o state n parent count h room =
    let i : state.position % 2 ^ 32 ≡ state.position = omega (arith, h.start) in
    let es = drop state.position state.dirents in
    let z : 0 + length (take (count / 280) es) * 280 ≡ length (take (count / 280) es) * 280 =
      omega arith in
    let f =
      rw z at (fill-take count state.position 0 (count / 280) es (omega arith) (omega arith)) in
    let small : ltb (state.position + length (take (count / 280) es)) (2 ^ 31) ≡ true =
      ground (arith, moved_bound state (count / 280) h.start h.size) in
    let some_room : (count / dirent_size == 0) ≡ false = ground (arith, room) in
    ground (arith, some_room, h.entry, h.opened, h.file, h.kind, h.above, i, f, small)

-- Two calls of `getdents64` in a row, each with room for an entry, through an open descriptor on a
-- directory that has a parent, succeed. Together they return the records of the entries from the position
-- of the descriptor on, in order, none twice and none left out, as many as the two buffers have room for or
-- as there are, and change no file. The position and the number of entries are below 2^31.
pub getdents64-resume :
    (s : Fs) (fd o : ℕ) (state : OpenFile) (n : File) (parent : FileId) (count count' : ℕ)
    → Lists s fd o state n parent
    → 280 ≤ count
    → 280 ≤ count'
    → (t : Fs) × (u : Fs) × (r : List Dirent) × (r' : List Dirent) × (used : ℕ) × (used' : ℕ)
      × (getdents64 fd count s ≡ done (r, used) t)
      × (getdents64 fd count' t ≡ done (r', used') u)
      × (r ++ r'
          ≡ records state.position
              (take (count / 280 + count' / 280) (drop state.position state.dirents)))
      × (used + used' ≡ length (r ++ r') * 280)
      × (u.files ≡ s.files)
getdents64-resume s fd o state n parent count count' h room room' =
    let k = count / 280 in
    let m = count' / 280 in
    let es = drop state.position state.dirents in
    let later = moved state k in
    let t = listed s o later in
    let rest : drop later.position state.dirents ≡ drop k es =
      sym (drop-add state.position (length (take k es)) state.dirents) ∙ drop-length-take k es in
    let lists : Lists t fd o later n parent = record {
      entry = get_open-table fd o s t refl h.entry;
      opened = ground arith;
      file = h.file;
      kind = h.kind;
      above = h.above;
      start = moved_bound state k h.start h.size;
      size = h.size;
    } in
    (
      t,
      listed t o (moved later m),
      records state.position (take k es),
      records later.position (take m (drop later.position state.dirents)),
      length (take k es) * 280,
      length (take m (drop later.position state.dirents)) * 280,
      getdents64-eq s fd o state n parent count h room,
      getdents64-eq t fd o later n parent count' lists room',
      ap (λ l. records state.position (take k es) ++ records later.position (take m l)) rest
          ∙ sym (records-append state.position (take k es) (take m (drop k es)))
          ∙ ap (records state.position) (take-add k m es),
      omega (
        arith,
        length-append (records state.position (take k es))
            (records later.position (take m (drop later.position state.dirents))),
        length-records state.position (take k es),
        length-records later.position (take m (drop later.position state.dirents)),
      ),
      refl,
    )
