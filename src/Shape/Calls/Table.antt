-- ===== src/Shape/Calls/Table.antt =====
-- The file table and the open files, which are no part of the tree.
use emscripten_memfswasm_wra.Base.{ℕ, Option, none, some, List, [], ◌∷◌, refl, set}
use emscripten_memfswasm_wra.Memory.Entries.{DCache, Entries, mounts}
use emscripten_memfswasm_wra.Store.{FileId, OpenFile, Fs, modify}
use emscripten_memfswasm_wra.Directory.{list_entries, list_mounts, get_entries}
use emscripten_memfswasm_wra.Table.{
  retain, release, set_entry, add_entry, make_open, snapshot, create_open,
}
use emscripten_memfswasm_wra.Shape.{Keeps, Reads, Always, files-IsShaped}
use emscripten_memfswasm_wra.Shape.Rules.{
  Reads-pure, Reads-crash, Reads-bind, Reads-then, Reads-gets, Keeps-Reads, Keeps-bind, Keeps-then,
  Keeps-read,
}
use emscripten_memfswasm_wra.Shape.Reading.{
  Reads-load, Reads-load_open, Reads-load_dir, Reads-get_parent, Reads-notify, Reads-Option,
  Reads-Body,
}
use emscripten_memfswasm_wra.Shape.Files.{Keeps-store_open}

Keeps-table : (g : Fs → List (Option ℕ)) → Keeps Always (modify (λ s. record s { table = g s }))
Keeps-table g = record { at = λ s h p. files-IsShaped s _ refl refl h }

Keeps-retain : (o : Option ℕ) → Keeps Always (retain o)
unfolding retain
Keeps-retain none = Keeps-Reads _ _ (Reads-pure tt)
Keeps-retain (some o) = Keeps-read _ _ _ (Reads-load_open o) λ n. Keeps-store_open o _

Keeps-release : (o : Option ℕ) → Keeps Always (release o)
unfolding release
Keeps-release none = Keeps-Reads _ _ (Reads-pure none)
Keeps-release (some o) = Keeps-read _ _ _ (Reads-load_open o) λ n.
    Keeps-then _ _ _ (Keeps-store_open o _)
      (Keeps-Reads _ _ (Reads-bind _ _ (Reads-load n.file) λ f. Reads-pure _))

pub Keeps-set_entry : (fd : ℕ) (o : Option ℕ) → Keeps Always (set_entry fd o)
unfolding set_entry
Keeps-set_entry fd o = Keeps-then _ _ _ (Keeps-table _) (
    Keeps-then _ _ _ (Keeps-retain o) (
      Keeps-read _ _ _ (Reads-gets _) λ old. Keeps-bind _ _ _ (Keeps-release old) λ closee.
        Keeps-then _ _ _ (Keeps-table (λ s. set s.table fd o))
          (Keeps-Reads _ _ (Reads-pure closee))))

pub Keeps-add_entry : (o : ℕ) → Keeps Always (add_entry o)
unfolding add_entry
Keeps-add_entry o =
    Keeps-read _ _ _ (Reads-gets _)
      λ fd. Keeps-then _ _ _ (Keeps-set_entry fd (some o)) (Keeps-Reads _ _ (Reads-pure fd))

Keeps-make_open : (n : OpenFile) → Keeps Always (make_open n)
unfolding make_open
Keeps-make_open n = record { at = λ s h p. files-IsShaped s _ refl refl h }

Reads-list_entries : (es : Entries) → Reads (list_entries es)
unfolding list_entries
Reads-list_entries [] = Reads-pure []
Reads-list_entries (e ∷ es) =
    Reads-bind _ _ (Reads-load e.child)
      λ n. Reads-bind _ _ (Reads-list_entries es) λ rest. Reads-pure _

Reads-list_mounts : (cs : DCache) → Reads (list_mounts cs)
unfolding list_mounts
Reads-list_mounts [] = Reads-pure []
Reads-list_mounts (c ∷ cs) =
    Reads-bind _ _ (Reads-load c.file)
      λ n. Reads-bind _ _ (Reads-list_mounts cs) λ rest. Reads-pure _

pub Reads-get_entries : (dir : FileId) → Reads (get_entries dir)
unfolding get_entries
Reads-get_entries dir = Reads-bind _ _ (Reads-load_dir dir) λ d.
    Reads-bind _ _ (Reads-list_entries d.entries)
      λ own. Reads-bind _ _ (Reads-list_mounts (mounts d.dcache)) λ mounted. Reads-pure _

Reads-snapshot : (dir : FileId) → Reads (snapshot dir)
unfolding snapshot
Reads-snapshot dir = Reads-bind _ _ (Reads-get_parent dir) λ parent.
    Reads-Option parent _ _ Reads-crash
      λ p. Reads-bind _ _ (Reads-get_entries dir) λ es. Reads-pure _

pub Keeps-create_open : (f : FileId) (flags : ℕ) → Keeps Always (create_open f flags)
unfolding create_open
Keeps-create_open f flags = Keeps-read _ _ _ (Reads-load f) λ n.
    Keeps-read _ _ _
      (Reads-Body n.body _ _ _ (λ i. Reads-then _ _ (Reads-notify f) (Reads-pure []))
        (λ y. Reads-snapshot f) (λ t. Reads-pure []))
      λ dirents. Keeps-make_open _
