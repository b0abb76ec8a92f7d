-- ===== src/JsApi/Readdir.antt =====
-- The calls that list a directory for JavaScript, `_wasmfs_readdir_start` and `_wasmfs_readdir_get`.
-- The list is what `scandir` of the C library finds, and freeing it is left out.
use emscripten_memfswasm_wra.Base.{
  ℕ, zero, suc, ◌+◌, ◌-◌, ◌≡◌, refl, sym, ap, ◌∙◌, Bool, true, Option, none, some, List, [], ◌∷◌,
  ◌++◌, length, get_elem?, ltb, replicate, if◌then◌else◌, arith, length-append, append-nil,
  append_assoc, get_elem?-append_right,
}
use emscripten_memfswasm_wra.Base.Names.{Name}
use emscripten_memfswasm_wra.Store.{M, pure, ◌>>=◌}

-- `struct wasmfs_readdir_state`
pub record ReaddirState : Type 0 where
  pub i : ℕ
  pub nentries : ℕ
  pub entries : List Name

-- Without a list, or without room for the state, there is no state.
unfoldable pub readdir_start :
    (Name → M (Option (List Name))) → Bool → Name → M (Option ReaddirState)
readdir_start scandir room path = do
  found ← scandir path
  elim found [
    | none ↦ pure none
    | some entries ↦
        if room
        then pure (some (record { i = 0; nentries = length entries; entries = entries }))
        else pure none
  ]

unfoldable pub readdir_get : ReaddirState → Option Name × ReaddirState
readdir_get st =
    if ltb st.i st.nentries
    then (get_elem? st.entries st.i, record st { i = st.i + 1 })
    else (none, st)

-- The results of several calls in a row.
abbrev pub listed : ℕ → ReaddirState → List (Option Name)
listed zero st = []
listed (suc k) st = (readdir_get st).0 ∷ listed k (readdir_get st).1

abbrev pub somes : List Name → List (Option Name)
somes [] = []
somes (a ∷ names) = some a ∷ somes names

abbrev at_entry : List Name → List Name → ReaddirState
at_entry front rest = record {
  i = length front;
  nentries = length (front ++ rest);
  entries = front ++ rest;
}

at_end : (k : ℕ) (front : List Name) → listed k (at_entry front []) ≡ replicate k none
unfolding readdir_get
at_end zero front = refl
at_end (suc k) front = ground (arith, at_end k front, append-nil front)

from_entry :
    (k : ℕ) (front rest : List Name)
    → listed (length rest + k) (at_entry front rest) ≡ somes rest ++ replicate k none
unfolding readdir_get
from_entry k front [] = let e : 0 + k ≡ k = omega arith in rw e (at_end k front)
from_entry k front (a ∷ rest) =
    let snoc : (front ++ a ∷ []) ++ rest ≡ front ++ a ∷ rest = append_assoc front (a ∷ []) rest in
    let l : length (front ++ a ∷ []) ≡ length front + 1 = length-append front (a ∷ []) in
    let m : length (front ++ a ∷ rest) ≡ length front + suc (length rest) =
      length-append front (a ∷ rest) in
    let first : length front - length front ≡ 0 = omega arith in
    let g : get_elem? (front ++ a ∷ rest) (length front) ≡ some a =
      get_elem?-append_right front (a ∷ rest) (length front) (omega arith)
      ∙ ap (get_elem? (a ∷ rest)) first in
    let next : at_entry (front ++ a ∷ []) rest ≡ record {
      i = length front + 1;
      nentries = length (front ++ a ∷ rest);
      entries = front ++ a ∷ rest;
    } =
      rw (snoc, l) refl in
    let r = from_entry k (front ++ a ∷ []) rest in
    let c : suc (length rest) + k ≡ suc (length rest + k) = omega arith in
    let inside : ltb (length front) (length (front ++ a ∷ rest)) ≡ true = ground (arith, m) in
    rw (c, inside, g) (ap (λ t. some a ∷ t) (ap (listed (length rest + k)) (sym next) ∙ r))

-- If `scandir` finds a list, and there is room for the state, the calls of `_wasmfs_readdir_get`
-- return its names in order, each once, and a null pointer ever after.
pub readdir_lists :
    (k : ℕ) (entries : List Name)
    → listed (length entries + k) (record { i = 0; nentries = length entries; entries = entries })
      ≡ somes entries ++ replicate k none
readdir_lists k entries = from_entry k [] entries
