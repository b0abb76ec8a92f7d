-- ===== src/Shape/Files.antt =====
-- The fields of a file, in a state that is in shape.
use emscripten_memfswasm_wra.Base.{
  ℕ, ◌+◌, ◌≡◌, ◌≢◌, refl, sym, subst, none, some, Option-cases, inl, inr, Bool,
}
use emscripten_memfswasm_wra.Base.Names.{Name}
use emscripten_memfswasm_wra.Store.{
  FileId, DataImpl, make_file, Body, data_file, directory, symlink, Dir, File, Fs, M, OpenFile,
  done, ◌>>=◌, crash, load, store, store_open, date_now, set_mode, set_atime, set_mtime, set_ctime,
  update_mtime, update_ctime,
}
use emscripten_memfswasm_wra.Files.{new_file, store_data}
use emscripten_memfswasm_wra.Directory.Tree.{HasEntries}
use emscripten_memfswasm_wra.Memory.Entries.{find_entry}
use emscripten_memfswasm_wra.Shape.{Shaped, Keeps, Always, files-IsShaped}
use emscripten_memfswasm_wra.Shape.Rules.{Keeps-Reads, Keeps-bind, Reads-crash}
use emscripten_memfswasm_wra.Shape.Changes.{
  touched-IsShaped, with_new, with_new-IsShaped, new_loose, no_children,
}

-- The file that was read.
abbrev pub Holds : FileId → File → Fs → Type 0
Holds f n s = s.files f ≡ some n

pub Keeps-load :
    {A : Type 0} (f : FileId) (k : File → M A)
    → ((n : File) → Keeps (Holds f n) (k n))
    → Keeps Always (load f >>= k)
unfolding load
Keeps-load f k next = record {
  at = λ s h p. elim (Option-cases (s.files f)) [
    | inl e ↦ rw (e, Shaped) tt
    | inr (n, e) ↦ rw (e, Shaped) ((next n).at s h e)
  ];
}

pub Keeps-store :
    (f : FileId) (n n' : File)
    → n'.parent ≡ n.parent
    → ((y : Dir) → n'.body ≡ directory y → n.body ≡ directory y)
    → Keeps (Holds f n) (store f n')
unfolding store
Keeps-store f n n' parent' dirs = record {
  at = λ s h here. touched-IsShaped s f n n' h here parent' dirs;
}

-- A change of what is no file.
pub Keeps-modify :
    {A : Type 0} (m : M A) (a : Fs → A) (g : Fs → Fs)
    → ((s : Fs) → m s ≡ done (a s) (g s))
    → ((s : Fs) → (g s).files ≡ s.files)
    → ((s : Fs) → (g s).next_file ≡ s.next_file)
    → Keeps Always m
Keeps-modify m a g e f k = record {
  at = λ s h p. subst Shaped (sym (e s)) (files-IsShaped s (g s) (f s) (k s) h);
}

pub Keeps-date_now : Keeps Always date_now
unfolding date_now
Keeps-date_now =
    Keeps-modify _ (λ s. s.host.date_now s.calls) (λ s. record s { calls = s.calls + 1 })
      (λ s. refl) (λ s. refl) (λ s. refl)

pub Keeps-store_open : (o : ℕ) (n : OpenFile) → Keeps Always (store_open o n)
unfolding store_open
Keeps-store_open o n = record { at = λ s h p. files-IsShaped s _ refl refl h }

module _ (f : FileId) where
  pub Keeps-set_mode : (mode : ℕ) → Keeps Always (set_mode f mode)
  unfolding set_mode
  Keeps-set_mode mode = Keeps-load f _ λ n. Keeps-store f n _ refl (λ y b. b)

  pub Keeps-set_atime : (t : ℕ) → Keeps Always (set_atime f t)
  unfolding set_atime
  Keeps-set_atime t = Keeps-load f _ λ n. Keeps-store f n _ refl (λ y b. b)

  pub Keeps-set_mtime : (t : ℕ) → Keeps Always (set_mtime f t)
  unfolding set_mtime
  Keeps-set_mtime t = Keeps-load f _ λ n. Keeps-store f n _ refl (λ y b. b)

  pub Keeps-set_ctime : (t : ℕ) → Keeps Always (set_ctime f t)
  unfolding set_ctime
  Keeps-set_ctime t = Keeps-load f _ λ n. Keeps-store f n _ refl (λ y b. b)

  pub Keeps-update_mtime : Keeps Always (update_mtime f)
  unfolding update_mtime
  Keeps-update_mtime = Keeps-bind Always _ _ Keeps-date_now Keeps-set_mtime

  pub Keeps-update_ctime : Keeps Always (update_ctime f)
  unfolding update_ctime
  Keeps-update_ctime = Keeps-bind Always _ _ Keeps-date_now Keeps-set_ctime

  pub Keeps-store_data : (n : File) (impl : DataImpl) → Keeps (Holds f n) (store_data f n impl)
  unfolding store_data
  Keeps-store_data n impl = Keeps-store f n _ refl (λ y b. cc)

-- The file is an entry of no directory.
abbrev pub IsLoose : FileId → Fs → Type 0
IsLoose f s = (d : FileId) (y : Dir) (a : Name) → HasEntries s d y → find_entry a y.entries ≢ some f

-- A new file that is no directory, or an empty one, is loose at first.
pub Keeps-new_file :
    {A : Type 0} (body : Body) (mode backend : ℕ) (seekable : Bool) (k : FileId → M A)
    → ((y : Dir) → body ≡ directory y → y ≡ no_children)
    → ((c : FileId) → Keeps (IsLoose c) (k c))
    → Keeps Always (new_file body mode backend seekable >>= k)
unfolding new_file date_now make_file
Keeps-new_file body mode backend seekable k childless next = record {
  at = λ s h p.
      let n : File = record {
        body = body;
        mode = mode;
        atime = s.host.date_now s.calls;
        mtime = s.host.date_now s.calls;
        ctime = s.host.date_now s.calls;
        parent = none;
        backend = backend;
        seekable = seekable;
      } in
      (next s.next_file).at (with_new s n (s.calls + 1) h childless)
        (with_new-IsShaped s n (s.calls + 1) h childless) (new_loose s n (s.calls + 1) h childless);
}

module _ {A : Type 0} where
  pub Keeps-Body :
      (P : Fs → Type 0) (b : Body) (d : DataImpl → M A) (x : Dir → M A) (l : Name → M A)
      → ((i : DataImpl) → Keeps P (d i))
      → ((y : Dir) → Keeps P (x y))
      → ((t : Name) → Keeps P (l t))
      → Keeps P (elim b [ data_file i ↦ d i | directory y ↦ x y | symlink t ↦ l t ])
  Keeps-Body P (data_file i) d x l rd rx rl = rd i
  Keeps-Body P (directory y) d x l rd rx rl = rx y
  Keeps-Body P (symlink t) d x l rd rx rl = rl t

  pub Keeps-crash : (P : Fs → Type 0) → Keeps P (crash {A = A})
  Keeps-crash P = Keeps-Reads P _ Reads-crash

pub Keeps-weaken : {A : Type 0} (P : Fs → Type 0) (m : M A) → Keeps Always m → Keeps P m
Keeps-weaken P m k = record { at = λ s h p. k.at s h tt }
