-- ===== src/Shape.antt =====
-- What every call keeps of the tree of directories, and how calls are put together.
pub mod Rules
pub mod Reading
pub mod Changes
pub mod Files
pub mod Data
pub mod Children
pub mod Calls
pub mod Sequences
pub mod Booted
use emscripten_memfswasm_wra.Base.{◌∙◌, ℕ, ◌≡◌, ◌≢◌, ap, some, [], ◌∷◌}
use emscripten_memfswasm_wra.Base.Names.{Name}
use emscripten_memfswasm_wra.Memory.Entries.{find_entry, mount, DCache}
use emscripten_memfswasm_wra.Store.{FileId, Dir, Fs, Out, M, done, fail, fault, out_of_fuel}
use emscripten_memfswasm_wra.Directory.Tree.{HasEntries, IsTree}

abbrev pub AreMounts : DCache → Type 0
AreMounts [] = Unit
AreMounts (c ∷ cs) = (c.kind ≡ mount) × AreMounts cs

-- The tree is in shape, no directory is an entry of itself, and the caches hold mount points only.
pub record IsShaped (s : Fs) : Type 0 where
  pub tree : IsTree s
  pub proper :
      (d : FileId) (x : Dir) (a : Name) → HasEntries s d x → find_entry a x.entries ≢ some d
  pub mounted : (d : FileId) (x : Dir) → HasEntries s d x → AreMounts x.dcache

-- The end of a call in a state that is in shape, if it ends in one.
abbrev pub Shaped : {A : Type 0} → Out A → Type 0
Shaped (done a t) = IsShaped t
Shaped (fail e t) = IsShaped t
Shaped fault = Unit
Shaped out_of_fuel = Unit

-- The end of a call in the same state, if it ends in one.
abbrev pub Same : {A : Type 0} → Fs → Out A → Type 0
Same s (done a t) = t ≡ s
Same s (fail e t) = t ≡ s
Same s fault = Unit
Same s out_of_fuel = Unit

-- From a state that is in shape and meets `P`, the call ends in a state that is in shape.
pub record Keeps {A : Type 0} (P : Fs → Type 0) (m : M A) : Type 0 where
  pub at : (s : Fs) → IsShaped s → P s → Shaped (m s)

-- In a state that is in shape, the call changes nothing.
pub record Reads {A : Type 0} (m : M A) : Type 0 where
  pub at : (s : Fs) → IsShaped s → Same s (m s)

-- No condition on the state.
abbrev pub Always : Fs → Type 0
Always s = Unit

-- The shape depends on the files only.
pub files-IsShaped :
    (s t : Fs) → t.files ≡ s.files → t.next_file ≡ s.next_file → IsShaped s → IsShaped t
files-IsShaped s t e k shape = record {
  tree = record {
    unused = λ f h. ap (λ g. g f) e ∙ shape.tree.unused f (rw k at h);
    names = λ d x h. shape.tree.names d x (rw e at h);
    single = λ d x c a b h u v. shape.tree.single d x c a b (rw e at h) u v;
    children = λ d x c a h u. rw e (shape.tree.children d x c a (rw e at h) u);
  };
  proper = λ d x a h. shape.proper d x a (rw e at h);
  mounted = λ d x h. shape.mounted d x (rw e at h);
}
