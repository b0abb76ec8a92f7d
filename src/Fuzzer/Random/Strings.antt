-- ===== src/Fuzzer/Random/Strings.antt =====
-- What the random strings hold.
use emscripten_memfswasm_wra.Base.{
  ℕ, zero, suc, ◌<◌, ◌≡◌, refl, ap, Bool, true, ◌&&◌, ◌||◌, some, [], ◌∷◌, length, get_elem?,
  replicate, leb, arith,
}
use emscripten_memfswasm_wra.Memory.DataFile.{Bytes}
use emscripten_memfswasm_wra.Fuzzer.Random.{
  Random, up_to, alphanum, symbol, get_string, first, get_single_symbol_string,
}
use emscripten_memfswasm_wra.Fuzzer.Random.Bounds.{HasInput, Returns, Returns-bind, up_to_bound}

abbrev is_alphanum : ℕ → Bool
is_alphanum c =
    (leb 0x30 c && leb c 0x39) || (leb 0x41 c && leb c 0x5a) || (leb 0x61 c && leb c 0x7a)

-- A letter or a digit.
abbrev pub IsAlphanum : ℕ → Type 0
IsAlphanum c = is_alphanum c ≡ true

abbrev pub AreAlphanum : Bytes → Type 0
AreAlphanum [] = Unit
AreAlphanum (c ∷ cs) = IsAlphanum c × AreAlphanum cs

elem-IsAlphanum :
    (cs : Bytes) (i : ℕ)
    → AreAlphanum cs
    → i < length cs
    → (c : ℕ) × (get_elem? cs i ≡ some c) × IsAlphanum c
elem-IsAlphanum [] i h k = absurd (omega arith)
elem-IsAlphanum (c ∷ cs) zero h k = (c, refl, h.0)
elem-IsAlphanum (c ∷ cs) (suc i) h k = elem-IsAlphanum cs i h.1 (omega arith)

letters : AreAlphanum alphanum
letters = ground arith

symbol-IsAlphanum : (i : ℕ) → i < 62 → IsAlphanum (symbol i)
symbol-IsAlphanum i h = let (c, e, k) = elem-IsAlphanum alphanum i letters h in rw e k

-- With input, `getString` returns as many letters and digits as it is asked for.
pub get_string-AreAlphanum :
    (n : ℕ) (r : Random)
    → HasInput r
    → Returns (λ s. (length s ≡ n) × AreAlphanum s) (get_string n r)
unfolding get_string
get_string-AreAlphanum zero r h = ((refl, tt), h)
get_string-AreAlphanum (suc n) r h =
    Returns-bind (λ i. i < 62) _ (up_to 62 r) _ (up_to_bound 62 r (omega arith) h)
      λ i s k hs.
        Returns-bind _ _ (get_string n s) _ (get_string-AreAlphanum n s hs)
          λ rest t kt ht. ((ap suc kt.0, (symbol-IsAlphanum i k, kt.1)), ht)

-- A string of one letter or digit, repeated.
abbrev pub IsUniform : ℕ → Bytes → Type 0
IsUniform n s = (c : ℕ) × IsAlphanum c × (s ≡ replicate n c)

single_first : (s : Bytes) → (length s ≡ 1) × AreAlphanum s → IsAlphanum (first s)
single_first [] h = absurd (omega (arith, h.0))
single_first (c ∷ cs) h = h.1.0

-- With input, `getSingleSymbolString` returns one letter or digit as often as it is asked for.
pub single_symbol-IsUniform :
    (n : ℕ) (r : Random) → HasInput r → Returns (IsUniform n) (get_single_symbol_string n r)
unfolding get_single_symbol_string
single_symbol-IsUniform n r h =
    Returns-bind _ (IsUniform n) (get_string 1 r) _ (get_string-AreAlphanum 1 r h)
      λ s t k ht. ((first s, single_first s k, refl), ht)
