-- ===== src/Directory/Tree/Rooted.antt =====
-- The way from a file up to the root, across `insertMove`.
use emscripten_memfswasm_wra.Base.{◌∙◌, subst, ◌≡◌, ◌≢◌, sym, Option, none, some}
use emscripten_memfswasm_wra.Base.Names.{Name}
use emscripten_memfswasm_wra.Memory.Entries.{find_entry}
use emscripten_memfswasm_wra.Store.{FileId, Dir, File, Fs}
use emscripten_memfswasm_wra.Directory.Tree.Moved.{Moved}

-- The parents of a file lead to the root.
pub data Rooted (s : Fs) : FileId → Type 0 where
  at_root : Rooted s s.root
  below :
      (f p : FileId) (m : File) → s.files f ≡ some m → m.parent ≡ some p → Rooted s p → Rooted s f

-- The same, on a way that does not meet a file.
pub data Avoids (s : Fs) (file : FileId) : FileId → Type 0 where
  root_avoids : Avoids s file s.root
  step_avoids :
      (f p : FileId) (m : File)
      → f ≢ file
      → s.files f ≡ some m
      → m.parent ≡ some p
      → Avoids s file p
      → Avoids s file f

none≢some_file : {j : FileId} → ◌≢◌ {A = Option FileId} none (some j)
none≢some_file e = cc

module _ (s t : Fs) (dir file : FileId) (name : Name) (x : Dir) (moved : Moved s t dir file name x)
    (free : find_entry name x.entries ≡ none) where
  kept-Rooted : (f : FileId) → Avoids s file f → Rooted t f
  kept-Rooted f root_avoids = subst (Rooted t) moved.root at_root
  kept-Rooted f (step_avoids g p m ne here above rest) =
      let (k, there, same) = moved.kept g m ne (λ e. none≢some_file (sym free ∙ e)) here in
      below g p k there (same ∙ above) (kept-Rooted p rest)

  pub Moved-Rooted : Avoids s file dir → Rooted t file
  Moved-Rooted way =
      let (k, there, above) = moved.moved in below file dir k there above (kept-Rooted dir way)
