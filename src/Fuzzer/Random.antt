-- ===== src/Fuzzer/Random.antt =====
-- `Random` of wasmfs/fuzzer/random.cpp.
--
-- An `int8_t` is its byte, an `int16_t`, `int32_t` or `int64_t` its word, and so is the `xorFactor`. Without
-- any input byte, reading one is undefined. The sum in `xorFactor++` is taken to wrap.
pub mod Bounds
pub mod Strings
use emscripten_memfswasm_wra.Base.{
  ℕ, zero, suc, ◌+◌, ◌-◌, ◌*◌, ◌/◌, ◌%◌, ◌^◌, Bool, true, false, Option, none, some, List, [], ◌∷◌,
  length, get_elem?, replicate, ltb, leb, ◌==◌, if◌then◌else◌, bit_or, bit_xor,
}
use emscripten_memfswasm_wra.Base.Names.{codes}
use emscripten_memfswasm_wra.Memory.DataFile.{Bytes}

pub record Random : Type 0 where
  pub bytes : Bytes
  pub pos : ℕ
  pub finished_input : Bool
  pub xor_factor : ℕ

-- A call on the generator; `none` is undefined behaviour.
abbrev pub Gen : Type 0 → Type 0
Gen A = Random → Option (A × Random)

module _ {A B : Type 0} where
  abbrev pub and_then : Option (A × Random) → (A → Gen B) → Option (B × Random)
  and_then none f = none
  and_then (some (a, r)) f = f a r

  infixl 5 ◌>>=◌
  abbrev pub ◌>>=◌ : Gen A → (A → Gen B) → Gen B
  ◌>>=◌ m f r = and_then (m r) f

abbrev pub pure : {A : Type 0} → A → Gen A
pure a r = some (a, r)

-- Back to the start of the input when it ran out.
abbrev pub rewound : Random → Random
rewound r =
    if r.pos == length r.bytes
    then record r { finished_input = true; pos = 0; xor_factor = (r.xor_factor + 1) % 2 ^ 32 }
    else r

-- `Random::get`
unfoldable pub get : Gen ℕ
get r = elim (get_elem? (rewound r).bytes (rewound r).pos) [
  | none ↦ none
  | some b ↦
      some
        (bit_xor b (rewound r).xor_factor % 2 ^ 8, record (rewound r) { pos = (rewound r).pos + 1 })
]

-- A signed word of `w` bits as an unsigned one of `v` bits.
abbrev pub extend : ℕ → ℕ → ℕ → ℕ
extend w v n = if ltb n (2 ^ (w - 1)) then n else n + (2 ^ v - 2 ^ w)

-- `Random::get16`, `get32` and `get64`. The sign of the lower part is extended over the upper one.
unfoldable pub get16 : Gen ℕ
get16 = do a ← get; b ← get; pure (bit_or (extend 8 16 a * 2 ^ 8) (extend 8 16 b) % 2 ^ 16)

unfoldable pub get32 : Gen ℕ
get32 = do a ← get16; b ← get16; pure (bit_or (extend 16 32 a * 2 ^ 16 % 2 ^ 32) (extend 16 32 b))

unfoldable pub get64 : Gen ℕ
get64 = do a ← get32; b ← get32; pure (bit_or (extend 32 64 a * 2 ^ 32 % 2 ^ 64) (extend 32 64 b))

-- The raw value of `upTo`, as a `uint32_t`.
unfoldable pub raw_for : ℕ → Gen ℕ
raw_for x =
    if leb x 255
    then (do b ← get; pure (extend 8 32 b))
    else if leb x 65535
    then (do b ← get16; pure (extend 16 32 b))
    else get32

-- `xorFactor += raw / x;`
abbrev pub add_noise : ℕ → Gen (Unit {0})
add_noise n r = some (tt, record r { xor_factor = (r.xor_factor + n) % 2 ^ 32 })

-- `Random::upTo`
unfoldable pub up_to : ℕ → Gen ℕ
up_to x =
    if x == 0 then pure 0 else (do raw ← raw_for x; noise ← add_noise (raw / x); pure (raw % x))

abbrev pub alphanum : Bytes
alphanum = codes "0123456789ABCDEFGHIJKLMNOPQRSTUVWXYZabcdefghijklmnopqrstuvwxyz"

-- `alphanum[i]`, where the byte behind the letters is 0.
abbrev pub symbol : ℕ → ℕ
symbol i = elim (get_elem? alphanum i) [ none ↦ 0 | some c ↦ c ]

-- `Random::getString`, for a size that is not negative.
unfoldable pub get_string : ℕ → Gen Bytes
get_string zero = pure []
get_string (suc n) = do i ← up_to 62; rest ← get_string n; pure (symbol i ∷ rest)

abbrev pub first : Bytes → ℕ
first [] = 0
first (c ∷ cs) = c

-- `Random::getSingleSymbolString`
unfoldable pub get_single_symbol_string : ℕ → Gen Bytes
get_single_symbol_string n = do s ← get_string 1; pure (replicate n (first s))
