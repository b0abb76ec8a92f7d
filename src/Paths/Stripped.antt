-- ===== src/Paths/Stripped.antt =====
-- Trailing slashes of a path.
use emscripten_memfswasm_wra.Base.{ℕ, ◌≡◌, ◌≢◌, refl, List, [], ◌∷◌, ◌++◌, append-nil}
use emscripten_memfswasm_wra.Base.Names.{Name}
use emscripten_memfswasm_wra.Paths.{slash, strip_trailing}
use emscripten_memfswasm_wra.Paths.Segments.{NoSlash, Components, join}

strip_cons :
    (c : ℕ) (zs : Name) → zs ≢ [] → strip_trailing zs ≡ zs → strip_trailing (c ∷ zs) ≡ c ∷ zs
unfolding strip_trailing
strip_cons c [] ne h = absurd (ne refl)
strip_cons c (d ∷ ds) ne h = rw h refl

strip_word : (n : Name) → NoSlash n → strip_trailing n ≡ n
unfolding strip_trailing
strip_word [] h = refl
strip_word (c ∷ []) h = rw (h.0) refl
strip_word (c ∷ d ∷ ds) h = strip_cons c (d ∷ ds) (λ e. cc) (strip_word (d ∷ ds) h.1)

append_ne : (xs ys : Name) → ys ≢ [] → xs ++ ys ≢ []
append_ne [] ys ne e = ne e
append_ne (x ∷ xs) ys ne e = cc

append_ne_left : (xs ys : Name) → xs ≢ [] → xs ++ ys ≢ []
append_ne_left [] ys ne e = ne refl
append_ne_left (x ∷ xs) ys ne e = cc

strip_append :
    (xs ys : Name) → ys ≢ [] → strip_trailing ys ≡ ys → strip_trailing (xs ++ ys) ≡ xs ++ ys
strip_append [] ys ne h = h
strip_append (x ∷ xs) ys ne h =
    strip_cons x (xs ++ ys) (append_ne xs ys ne) (strip_append xs ys ne h)

-- A path built from names has none.
pub strip_trailing-join :
    (n : Name) (ns : List Name) → Components (n ∷ ns) → strip_trailing (n ++ join ns) ≡ n ++ join ns
strip_trailing-join n [] h = rw append-nil (strip_word n h.1)
strip_trailing-join n (m ∷ ms) h =
    strip_append n (slash ∷ (m ++ join ms)) (λ e. cc)
      (strip_cons slash (m ++ join ms) (append_ne_left m (join ms) h.2.0)
        (strip_trailing-join m ms h.2))
