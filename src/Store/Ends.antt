-- ===== src/Store/Ends.antt =====
-- A postcondition on the value of a call that is not cut off, with its rule for binds. A call that
-- ends in an error or a fault meets every postcondition.
use emscripten_memfswasm_wra.Base.{◌≢◌}
use emscripten_memfswasm_wra.Store.{Fs, Out, M, done, fail, fault, out_of_fuel, and_then}

abbrev pub Ends : {A : Type 0} → (A → Type 0) → Out A → Type 0
Ends P (done a s) = P a
Ends P (fail e s) = Unit
Ends P fault = Unit
Ends P out_of_fuel = ⊥

pub Ends-bind :
    {A B : Type 0} (P : A → Type 0) (Q : B → Type 0) (m : Out A) (k : A → M B)
    → Ends P m
    → ((a : A) (s : Fs) → P a → Ends Q (k a s))
    → Ends Q (and_then m k)
Ends-bind P Q (done a s) k h next = next a s h
Ends-bind P Q (fail e s) k h next = tt
Ends-bind P Q fault k h next = tt
Ends-bind P Q out_of_fuel k h next = h

-- The trivial postcondition: the call is not cut off.
abbrev pub Stops : {A : Type 0} → Out A → Type 0
Stops m = Ends (λ _. Unit {0}) m

pub Stops-of_ne : {A : Type 0} (m : Out A) → m ≢ out_of_fuel → Stops m
Stops-of_ne (done a s) h = tt
Stops-of_ne (fail e s) h = tt
Stops-of_ne fault h = tt
Stops-of_ne out_of_fuel h = h (λ i. out_of_fuel)

pub ne_of_Ends : {A : Type 0} (P : A → Type 0) (m : Out A) → Ends P m → m ≢ out_of_fuel
ne_of_Ends P (done a s) h = λ e. cc
ne_of_Ends P (fail e s) h = λ e. cc
ne_of_Ends P fault h = λ e. cc
ne_of_Ends P out_of_fuel h = absurd h

pub Ends-mono :
    {A : Type 0} (P Q : A → Type 0) (m : Out A) → Ends P m → ((a : A) → P a → Q a) → Ends Q m
Ends-mono P Q (done a s) h weaken = weaken a h
Ends-mono P Q (fail e s) h weaken = tt
Ends-mono P Q fault h weaken = tt
Ends-mono P Q out_of_fuel h weaken = h
