-- ===== src/Base/Names.antt =====
-- Byte strings: file names, paths and link targets. `std::string` equality, and the order of the
-- keys of a `std::map`.
use Prim.Native.Nat.{ℕ}
use Prim.Native.Char.{code}
use Prim.Native.String.{String}
use mathlib.Core.Path.{◌≡◌, refl}
use mathlib.Core.Logic.{◌↔◌}
use mathlib.Core.Bool.{Bool, true, false, ◌&&◌}
use mathlib.Core.List.{List, [], ◌∷◌}
use native.Mathlib.Omega.{arith}
use emscripten_memfswasm_wra.Base.Tests.{ltb, ◌==◌, if◌then◌else◌}

-- A C string without its final NUL.
abbrev pub Name : Type 0
Name = List ℕ

-- The bytes of an ASCII literal.
abbrev pub codes : String → Name
codes String.[] = []
codes (String.◌∷◌ c s) = code c ∷ codes s

unfoldable pub name_eq : Name → Name → Bool
name_eq [] [] = true
name_eq [] (b ∷ bs) = false
name_eq (a ∷ as') [] = false
name_eq (a ∷ as') (b ∷ bs) = a == b && name_eq as' bs

-- `operator<` of `std::string`, the order of a `std::map`.
unfoldable pub name_lt : Name → Name → Bool
name_lt [] [] = false
name_lt [] (b ∷ bs) = true
name_lt (a ∷ as') [] = false
name_lt (a ∷ as') (b ∷ bs) = if a == b then name_lt as' bs else ltb a b

pub name_eq_sound : (a b : Name) → name_eq a b ≡ true → a ≡ b
unfolding name_eq
name_eq_sound [] [] h = refl
name_eq_sound [] (b ∷ bs) h = cc
name_eq_sound (a ∷ as') [] h = cc
name_eq_sound (a ∷ as') (b ∷ bs) h = ground (arith, name_eq_sound as' bs)

pub name_eq_refl : (a : Name) → name_eq a a ≡ true
unfolding name_eq
name_eq_refl [] = refl
name_eq_refl (a ∷ as') = ground (arith, name_eq_refl as')

pub name_eq_iff : (a b : Name) → (name_eq a b ≡ true) ↔ (a ≡ b)
name_eq_iff a b = (name_eq_sound a b, λ e. rw e (name_eq_refl b))
