-- ===== src/Shape/Rules.antt =====
-- One rule for each way to build a call.
use emscripten_memfswasm_wra.Base.{ℕ, refl, sym, subst, Bool, true, false, if◌then◌else◌}
use emscripten_memfswasm_wra.Store.{
  Fs, Out, M, done, fail, fault, out_of_fuel, pure, throw, crash, gets, throw_if, attempt, and_then,
  ◌>>=◌, ◌>>◌,
}
use emscripten_memfswasm_wra.Shape.{IsShaped, Shaped, Same, Keeps, Reads, Always}

module _ {A : Type 0} where
  pub Reads-pure : (a : A) → Reads (pure a)
  Reads-pure a = record { at = λ s h. refl }

  pub Reads-throw : (e : ℕ) → Reads (throw {A = A} e)
  Reads-throw e = record { at = λ s h. refl }

  pub Reads-crash : Reads (crash {A = A})
  Reads-crash = record { at = λ s h. tt }

  pub Reads-gets : (f : Fs → A) → Reads (gets f)
  Reads-gets f = record { at = λ s h. refl }

  pub Reads-if : (b : Bool) (m n : M A) → Reads m → Reads n → Reads (if b then m else n)
  Reads-if true m n km kn = km
  Reads-if false m n km kn = kn

  Shaped-Same : (s : Fs) (m : Out A) → IsShaped s → Same s m → Shaped m
  Shaped-Same s (done a t) h e = subst IsShaped (sym e) h
  Shaped-Same s (fail k t) h e = subst IsShaped (sym e) h
  Shaped-Same s fault h e = tt
  Shaped-Same s out_of_fuel h e = tt

  pub Keeps-Reads : (P : Fs → Type 0) (m : M A) → Reads m → Keeps P m
  Keeps-Reads P m r = record { at = λ s h p. Shaped-Same s (m s) h (r.at s h) }

  pub Keeps-if :
      (P : Fs → Type 0) (b : Bool) (m n : M A)
      → Keeps P m
      → Keeps P n
      → Keeps P (if b then m else n)
  Keeps-if P true m n km kn = km
  Keeps-if P false m n km kn = kn

  Same-attempt : (s : Fs) (m : M A) → Same s (m s) → Same s (attempt m s)
  Same-attempt s m h = go (m s) h
    where
      go : (o : Out A) → Same s o → Same s (attempt (λ _. o) s)
      go (done a t) h = h
      go (fail e t) h = h
      go fault h = h
      go out_of_fuel h = h

  pub Reads-attempt : (m : M A) → Reads m → Reads (attempt m)
  Reads-attempt m r = record { at = λ s h. Same-attempt s m (r.at s h) }

  Shaped-attempt : (s : Fs) (m : M A) → Shaped (m s) → Shaped (attempt m s)
  Shaped-attempt s m h = go (m s) h
    where
      go : (o : Out A) → Shaped o → Shaped (attempt (λ _. o) s)
      go (done a t) h = h
      go (fail e t) h = h
      go fault h = h
      go out_of_fuel h = h

  pub Keeps-attempt : (P : Fs → Type 0) (m : M A) → Keeps P m → Keeps P (attempt m)
  Keeps-attempt P m k = record { at = λ s h p. Shaped-attempt s m (k.at s h p) }

pub Reads-throw_if : (b : Bool) (e : ℕ) → Reads (throw_if b e)
Reads-throw_if true e = record { at = λ s h. refl }
Reads-throw_if false e = record { at = λ s h. refl }

module _ {A B : Type 0} where
  Same-bind :
      (s : Fs) (m : Out A) (k : A → M B)
      → Same s m
      → ((a : A) → Same s (k a s))
      → Same s (and_then m k)
  Same-bind s (done a t) k e h = subst (λ z. Same s (k a z)) (sym e) (h a)
  Same-bind s (fail j t) k e h = e
  Same-bind s fault k e h = tt
  Same-bind s out_of_fuel k e h = tt

  pub Reads-bind : (m : M A) (k : A → M B) → Reads m → ((a : A) → Reads (k a)) → Reads (m >>= k)
  Reads-bind m k rm rk = record { at = λ s h. Same-bind s (m s) k (rm.at s h) (λ a. (rk a).at s h) }

  pub Reads-then : (m : M A) (k : M B) → Reads m → Reads k → Reads (m >> k)
  Reads-then m k rm rk = Reads-bind m (λ _. k) rm (λ _. rk)

  Shaped-bind :
      (m : Out A) (k : A → M B)
      → Shaped m
      → ((a : A) (t : Fs) → IsShaped t → Shaped (k a t))
      → Shaped (and_then m k)
  Shaped-bind (done a t) k h next = next a t h
  Shaped-bind (fail e t) k h next = h
  Shaped-bind fault k h next = tt
  Shaped-bind out_of_fuel k h next = tt

  -- After a change nothing but the shape is known.
  pub Keeps-bind :
      (P : Fs → Type 0) (m : M A) (k : A → M B)
      → Keeps P m
      → ((a : A) → Keeps Always (k a))
      → Keeps P (m >>= k)
  Keeps-bind P m k km kk = record {
    at = λ s h p. Shaped-bind (m s) k (km.at s h p) (λ a t g. (kk a).at t g tt);
  }

  pub Keeps-then :
      (P : Fs → Type 0) (m : M A) (k : M B) → Keeps P m → Keeps Always k → Keeps P (m >> k)
  Keeps-then P m k km kk = Keeps-bind P m (λ _. k) km (λ _. kk)

  Shaped-read :
      (s : Fs) (m : Out A) (k : A → M B)
      → IsShaped s
      → Same s m
      → ((a : A) → Shaped (k a s))
      → Shaped (and_then m k)
  Shaped-read s (done a t) k h e next = subst (λ z. Shaped (k a z)) (sym e) (next a)
  Shaped-read s (fail j t) k h e next = subst IsShaped (sym e) h
  Shaped-read s fault k h e next = tt
  Shaped-read s out_of_fuel k h e next = tt

  -- What is read does not change what is known.
  pub Keeps-read :
      (P : Fs → Type 0) (m : M A) (k : A → M B)
      → Reads m
      → ((a : A) → Keeps P (k a))
      → Keeps P (m >>= k)
  Keeps-read P m k rm kk = record {
    at = λ s h p. Shaped-read s (m s) k h (rm.at s h) (λ a. (kk a).at s h p);
  }

  pub Keeps-read_then :
      (P : Fs → Type 0) (m : M A) (k : M B) → Reads m → Keeps P k → Keeps P (m >> k)
  Keeps-read_then P m k rm kk = Keeps-read P m (λ _. k) rm (λ _. kk)

pub ruleset reads_rules = (
  Reads-pure, Reads-throw, Reads-crash, Reads-gets, Reads-if, Reads-attempt, Reads-throw_if,
  Reads-bind, Reads-then,
)

pub ruleset keeps_rules =
    (Keeps-then, Keeps-bind, Keeps-if, Keeps-attempt, Keeps-Reads, reads_rules)
