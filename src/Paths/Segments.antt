-- ===== src/Paths/Segments.antt =====
-- How a path is cut into names.
use emscripten_memfswasm_wra.Base.{
  Bool-cases, inl, inr, ◌≡◌, ◌≢◌, refl, ◌∙◌, ap, false, List, [], ◌∷◌, ◌++◌, append-nil,
  append_assoc, ◌==◌,
}
use emscripten_memfswasm_wra.Base.Names.{Name}
use emscripten_memfswasm_wra.Paths.{slash, flush, cut, segments}

-- Bytes without a slash.
abbrev pub NoSlash : Name → Type 0
NoSlash [] = Unit
NoSlash (c ∷ cs) = ((c == slash) ≡ false) × NoSlash cs

-- Names that a directory can hold: not empty, and without a slash.
abbrev pub Components : List Name → Type 0
Components [] = Unit
Components (n ∷ ns) = (n ≢ []) × NoSlash n × Components ns

-- The names with a slash before each.
abbrev pub join : List Name → Name
join [] = []
join (n ∷ ns) = slash ∷ (n ++ join ns)

cut-append : (piece n rest : Name) → NoSlash n → cut piece (n ++ rest) ≡ cut (piece ++ n) rest
unfolding cut
cut-append piece [] rest h = rw append-nil
cut-append piece (c ∷ cs) rest h =
    rw (h.0, cut)
      (cut-append (piece ++ (c ∷ [])) cs rest h.1
        ∙ ap (λ p. cut p rest) (append_assoc piece (c ∷ []) cs))

cut-join : (piece : Name) (ns : List Name) → Components ns → cut piece (join ns) ≡ flush piece ns
unfolding cut
cut-join piece [] h = refl
cut-join piece (n ∷ ns) h =
    ap (flush piece) (cut-append [] n (join ns) h.1 ∙ cut-join n ns h.2 ∙ flush_ne n ns h.0)
  where
    flush_ne : (n : Name) (ns : List Name) → n ≢ [] → flush n ns ≡ n ∷ ns
    flush_ne [] ns e = absurd (e refl)
    flush_ne (c ∷ cs) ns e = refl

-- A path built from names, each not empty and without a slash, is cut into those names.
pub segments-join : (ns : List Name) → Components ns → segments (join ns) ≡ ns
unfolding segments
segments-join ns h = cut-join [] ns h

NoSlash-append : (a b : Name) → NoSlash a → NoSlash b → NoSlash (a ++ b)
NoSlash-append [] b ha hb = hb
NoSlash-append (c ∷ cs) b ha hb = (ha.0, NoSlash-append cs b ha.1 hb)

Components-flush :
    (piece : Name) (rest : List Name)
    → NoSlash piece
    → Components rest
    → Components (flush piece rest)
Components-flush [] rest h k = k
Components-flush (c ∷ cs) rest h k = (λ e. cc, h, k)

cut-Components : (piece path : Name) → NoSlash piece → Components (cut piece path)
unfolding cut
cut-Components piece [] h = Components-flush piece [] h tt
cut-Components piece (c ∷ cs) h = elim (Bool-cases (c == slash)) [
  | inl e ↦ rw (e, cut) (Components-flush piece (cut [] cs) h (cut-Components [] cs tt))
  | inr e ↦
      rw (e, cut) (cut-Components (piece ++ (c ∷ [])) cs (NoSlash-append piece (c ∷ []) h (e, tt)))
]

-- Every piece of a path is a name that a directory can hold: none is empty or contains a slash.
segments-Components : (path : Name) → Components (segments path)
unfolding segments
segments-Components path = cut-Components [] path tt
