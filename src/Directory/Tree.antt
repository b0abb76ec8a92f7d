-- ===== src/Directory/Tree.antt =====
-- The shape of the tree of directories of the memory backend.
pub mod Inserted
pub mod Removed
pub mod Changes
pub mod Unlinked
pub mod Relinked
pub mod Touched
pub mod Moved
pub mod Rooted
pub mod Down
pub mod Depth
pub mod Contents
use emscripten_memfswasm_wra.Base.{
  ◌∙◌, ℕ, ◌+◌, ◌≤◌, ◌≡◌, ◌≢◌, ◌⊎◌, inl, inr, refl, sym, ap, Bool, true, false, Option, none, some,
  List, [], ◌∷◌, ◌==◌, if◌then◌else◌, arith, Bool-cases, ==_iff, ne_of_test,
}
use emscripten_memfswasm_wra.Base.Names.{Name, name_eq, name_eq_iff}
use emscripten_memfswasm_wra.Memory.Entries.{
  Entries, find_entry, find_cached, insert_child, erase_entry,
}
use emscripten_memfswasm_wra.Memory.Entries.Laws.{
  NodupNames, find-Fresh, NodupNames-insert_child, NodupNames-erase_entry, find-insert_child,
  find-erase_entry_ne, find-erase_entry_self,
}
use emscripten_memfswasm_wra.Store.{FileId, Body, directory, Dir, File, Fs, done, update, load}
use emscripten_memfswasm_wra.Directory.Lookup.{IsLinked}
use emscripten_memfswasm_wra.Directory.Insert.{created, after_insert}
use emscripten_memfswasm_wra.Directory.Remove.{after_remove}

-- The directory `d` has the entries of `x`.
abbrev pub HasEntries : Fs → FileId → Dir → Type 0
HasEntries s d x = (n : File) × (s.files d ≡ some n) × (n.body ≡ directory x)

-- No file has an id that is still to be given out. In each directory no name and no child stands
-- twice, and each child is there and has the directory as its parent. So a file is an entry of at
-- most one directory, under one name.
pub record IsTree (s : Fs) : Type 0 where
  pub unused : (f : FileId) → s.next_file ≤ f → s.files f ≡ none
  pub names : (d : FileId) (x : Dir) → HasEntries s d x → NodupNames x.entries
  pub single :
      (d : FileId) (x : Dir) (c : FileId) (a b : Name)
      → HasEntries s d x
      → find_entry a x.entries ≡ some c
      → find_entry b x.entries ≡ some c
      → a ≡ b
  pub children :
      (d : FileId) (x : Dir) (c : FileId) (a : Name)
      → HasEntries s d x
      → find_entry a x.entries ≡ some c
      → (m : File) × (s.files c ≡ some m) × (m.parent ≡ some d)

pub some-same : {A : Type 0} (a b : A) → some a ≡ some b → a ≡ b
some-same a b e = cc

pub directory-same : (x y : Dir) → directory x ≡ directory y → x ≡ y
directory-same x y e = cc

pub no_entry_in_nil : (a : Name) (c : FileId) → find_entry a [] ≢ some c
unfolding find_entry
no_entry_in_nil a c e = cc
