-- ===== src/Backends/Embedder.antt =====
-- What the backends over JavaScript share: the calls of one file object into the embedder.
--
-- A call into the embedder is numbered, since the answer may differ each time, and the handles that
-- it opens and closes are logged, the last one first.
use emscripten_memfswasm_wra.Base.{
  ℕ, ◌+◌, ◌-◌, ◌%◌, ◌^◌, ◌≡◌, refl, Bool, false, ◌&&◌, ◌||◌, ltb, List, [], ◌∷◌, ◌==◌,
  if◌then◌else◌,
}

-- A handle of the embedder: an `AccessHandle` or a `Blob` of the origin private file system, or a
-- descriptor of Node.
pub data Handle : Type 0 where
  access blob descriptor : ℕ → Handle

abbrev pub handle_eq : Handle → Handle → Bool
handle_eq (access a) (access b) = a == b
handle_eq (blob a) (blob b) = a == b
handle_eq (descriptor a) (descriptor b) = a == b
handle_eq _ _ = false

pub data Event : Type 0 where
  opened closed : Handle → Event

abbrev pub Log : Type 0
Log = List Event

abbrev pub remove_handle : Handle → List Handle → List Handle
remove_handle h [] = []
remove_handle h (g ∷ gs) = if handle_eq h g then gs else g ∷ remove_handle h gs

-- The handles that were opened and not closed.
abbrev pub live : Log → List Handle
live [] = []
live (opened h ∷ log) = h ∷ live log
live (closed h ∷ log) = remove_handle h (live log)

-- A count in a `size_t`: one more, and one less, which wraps.
abbrev pub more : ℕ → ℕ
more n = (n + 1) % 2 ^ 32

abbrev pub fewer : ℕ → ℕ
fewer n = if n == 0 then 2 ^ 32 - 1 else n - 1

-- What the users of a file see of its state: how often it is open, and whether one of the opens since
-- it was last closed is for writing.
pub record Opens : Type 0 where
  pub count : ℕ
  pub writable : Bool

abbrev pub after_open : Bool → Opens → Opens
after_open write a = record { count = a.count + 1; writable = write || a.writable }

abbrev pub after_close : Opens → Opens
after_close a = record { count = a.count - 1; writable = a.writable && ltb 1 a.count }

-- An `int` of the embedder: a value, or a negative error.
pub data Answer (A : Type 0) : Type 0 where
  ok : A → Answer A
  negative : ℕ → Answer A

-- The end of a method on a state. `unreachable` is `WASMFS_UNREACHABLE` or `abort`.
pub data Ended (S A : Type 0) : Type 0 where
  returned : A → S → Ended S A
  refused : ℕ → S → Ended S A
  unreachable : Ended S A

abbrev pub Act : Type 0 → Type 0 → Type 0
Act S A = S → Ended S A

module _ {S A : Type 0} where
  abbrev pub pure : A → Act S A
  pure a s = returned a s

  abbrev pub refuse : ℕ → Act S A
  refuse e s = refused e s

  abbrev pub never : Act S A
  never s = unreachable

  abbrev pub check : Answer A → Act S A
  check (ok a) = pure a
  check (negative e) = refuse e

module _ {S A B : Type 0} where
  abbrev pub and_then : Ended S A → (A → Act S B) → Ended S B
  and_then (returned a s) f = f a s
  and_then (refused e s) f = refused e s
  and_then unreachable f = unreachable

  infixl 5 ◌>>=◌ ◌>>◌
  abbrev pub ◌>>=◌ : Act S A → (A → Act S B) → Act S B
  ◌>>=◌ m f s = and_then (m s) f

  abbrev pub ◌>>◌ : Act S A → Act S B → Act S B
  ◌>>◌ m k s = and_then (m s) (λ _. k)

-- If a sequence returns, its first part does, and the rest from where that part ends.
pub and_then-returned :
    {S A B : Type 0} (m : Ended S A) (k : A → Act S B) {b : B} {t : S}
    → and_then m k ≡ returned b t
    → (a : A) × (s : S) × (m ≡ returned a s) × (k a s ≡ returned b t)
and_then-returned (returned a s) k h = (a, s, refl, h)
and_then-returned (refused e s) k h = cc
and_then-returned unreachable k h = cc
