-- ===== src/Store/Bind.antt =====
-- Taking a call that succeeds apart.
use emscripten_memfswasm_wra.Base.{◌≡◌, refl}
use emscripten_memfswasm_wra.Store.{Fs, Out, M, done, fail, fault, out_of_fuel, and_then}

-- If a sequence succeeds, its first part does, and the rest from where that part ends.
pub bind-done :
    {A B : Type 0} (m : Out A) (k : A → M B) {b : B} {t : Fs}
    → and_then m k ≡ done b t
    → (a : A) × (s : Fs) × (m ≡ done a s) × (k a s ≡ done b t)
bind-done (done a s) k h = (a, s, refl, h)
bind-done (fail e s) k h = cc
bind-done fault k h = cc
bind-done out_of_fuel k h = cc

-- The value and the state of a success are determined.
pub done-injective : {A : Type 0} {a b : A} {s t : Fs} → done a s ≡ done b t → (a ≡ b) × (s ≡ t)
done-injective h = (cc, cc)
