-- ===== src/Fuzzer/Random/Bounds.antt =====
-- What the random data is within.
use emscripten_memfswasm_wra.Base.{
  ℕ, zero, suc, ◌%◌, ◌≤◌, ◌<◌, ◌≡◌, inl, inr, ◌∙◌, ap, refl, false, Option, none, some, [], ◌∷◌,
  length, get_elem?, leb, ◌==◌, arith, Bool-cases,
}
use emscripten_memfswasm_wra.Memory.DataFile.{Bytes}
use emscripten_memfswasm_wra.Fuzzer.Random.{
  Random, Gen, and_then, rewound, get, get16, get32, raw_for, up_to,
}

-- There is input, and the position is in it or just behind it.
pub record HasInput (r : Random) : Type 0 where
  pub some_input : 0 < length r.bytes
  pub inside : r.pos ≤ length r.bytes

-- The call returns a value with a property, and keeps the input.
abbrev pub Returns : {A : Type 0} → (A → Type 0) → Option (A × Random) → Type 0
Returns P none = ⊥
Returns P (some (a, r)) = P a × HasInput r

abbrev Anything : {A : Type 0} → A → Type 0
Anything a = Unit

pub Returns-bind :
    {A B : Type 0} (P : A → Type 0) (Q : B → Type 0) (m : Option (A × Random)) (k : A → Gen B)
    → Returns P m
    → ((a : A) (r : Random) → P a → HasInput r → Returns Q (k a r))
    → Returns Q (and_then m k)
Returns-bind P Q none k h next = h
Returns-bind P Q (some (a, r)) k h next = next a r h.0 h.1

get_elem-inside : (xs : Bytes) (i : ℕ) → i < length xs → (b : ℕ) × (get_elem? xs i ≡ some b)
get_elem-inside [] i h = absurd (omega arith)
get_elem-inside (x ∷ xs) zero h = (x, refl)
get_elem-inside (x ∷ xs) (suc i) h = get_elem-inside xs i (omega arith)

rewound_inside :
    (r : Random) → HasInput r → ((rewound r).bytes ≡ r.bytes) × ((rewound r).pos < length r.bytes)
rewound_inside r h = elim (Bool-cases (r.pos == length r.bytes)) [
  | inl e ↦ (rw e refl, rw e h.some_input)
  | inr e ↦ (rw e refl, rw e (ground (arith, h.inside, e)))
]

get-Returns : (r : Random) → HasInput r → Returns Anything (get r)
unfolding get
get-Returns r h =
    let (same, inside) = rewound_inside r h in
    let (b, there) = get_elem-inside r.bytes (rewound r).pos inside in
    let found : get_elem? (rewound r).bytes (rewound r).pos ≡ some b =
      ap (λ l. get_elem? l (rewound r).pos) same ∙ there in
    rw (found, Returns)
      (tt, record { some_input = rw same h.some_input; inside = rw same (omega (arith, inside)) })

get16-Returns : (r : Random) → HasInput r → Returns Anything (get16 r)
unfolding get16
get16-Returns r h =
    Returns-bind Anything Anything (get r) _ (get-Returns r h)
      λ a s u k. Returns-bind Anything Anything (get s) _ (get-Returns s k) λ b t v l. (tt, l)

get32-Returns : (r : Random) → HasInput r → Returns Anything (get32 r)
unfolding get32
get32-Returns r h =
    Returns-bind Anything Anything (get16 r) _ (get16-Returns r h)
      λ a s u k. Returns-bind Anything Anything (get16 s) _ (get16-Returns s k) λ b t v l. (tt, l)

raw_for-Returns : (x : ℕ) (r : Random) → HasInput r → Returns Anything (raw_for x r)
unfolding raw_for
raw_for-Returns x r h = elim (Bool-cases (leb x 255)) [
  | inl e ↦
      rw (e, Returns)
        (Returns-bind Anything Anything (get r) _ (get-Returns r h) λ a s u k. (tt, k))
  | inr e ↦ elim (Bool-cases (leb x 65535)) [
    | inl f ↦
        rw (e, Returns)
          (rw (f, Returns)
            (Returns-bind Anything Anything (get16 r) _ (get16-Returns r h) λ a s u k. (tt, k)))
    | inr f ↦ rw (e, Returns) (rw (f, Returns) (get32-Returns r h))
  ]
]

below : (n x : ℕ) → 0 < x → n % x < x
below n x h = grind arith

-- With input, `upTo` returns a number below its argument, if that is not 0.
pub up_to_bound : (x : ℕ) (r : Random) → 0 < x → HasInput r → Returns (λ n. n < x) (up_to x r)
unfolding up_to
up_to_bound x r pos h =
    let e : (x == 0) ≡ false = ground arith in
    rw (e, Returns)
      (Returns-bind Anything (λ n. n < x) (raw_for x r) _ (raw_for-Returns x r h)
        λ raw s u k. (below raw x pos, record { some_input = k.some_input; inside = k.inside }))
