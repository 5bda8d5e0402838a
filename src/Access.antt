-- ===== src/Access.antt =====
-- buffer_cache.h, struct access::cache: a call of the cache is made under its std::mutex, which a thread takes by
-- trying until it succeeds, and releases when the call has returned. A call is the list of what it does to the
-- object, a part at a time; a part that is `none` throws, and then the mutex is not released. Any number
-- of threads make their calls next to one another. A thread that threw makes no step: for it to try a
-- std::mutex that it has is undefined. The recursive mutex of access::allocator is Recursive.
pub mod Atomic
pub mod Keeping
pub mod Ending
pub mod Recursive
mod Tests
use drumlin.Prelude.{
  ℕ, ◌≡◌, Bool, true, false, Option, none, some, List, [], ◌∷◌, ◌==◌, if◌then◌else◌, nat_eq,
  bytes_eq,
}

abbrev pub Call {ℓ} : Type ℓ → Type ℓ
Call S = List (S → Option S)

-- A thread that has calls to make, one in a call with what is left of it, and one whose call threw.
pub data Pc {ℓ} (S : Type ℓ) : Type ℓ where
  waiting : List (Call S) → Pc S
  calling : Call S → Call S → List (Call S) → Pc S
  thrown : Call S → List (Call S) → Pc S

pub record System {ℓ} (S : Type ℓ) : Type ℓ where
  pub shared : S
  pub is_locked : Bool
  pub pc : ℕ → Pc S

abbrev pub set_pc {ℓ} : {S : Type ℓ} → ℕ → Pc S → (ℕ → Pc S) → ℕ → Pc S
set_pc p c pc q = if q == p then c else pc q

-- access::cache
pub data Step {ℓ} {S : Type ℓ} (s : System S) : System S → Type ℓ where
  yield :
      (p : ℕ) (c : Call S) (calls : List (Call S))
      → s.pc p ≡ waiting (c ∷ calls)
      → s.is_locked ≡ true
      → Step s s
  try_lock :
      (p : ℕ) (c : Call S) (calls : List (Call S))
      → s.pc p ≡ waiting (c ∷ calls)
      → s.is_locked ≡ false
      → Step s (record s { is_locked = true; pc = set_pc p (calling c c calls) s.pc })
  go_on :
      (p : ℕ) (c : Call S) (part : S → Option S) (rest : Call S) (calls : List (Call S)) (after : S)
      → s.pc p ≡ calling c (part ∷ rest) calls
      → part s.shared ≡ some after
      → Step s (record s { shared = after; pc = set_pc p (calling c rest calls) s.pc })
  throw :
      (p : ℕ) (c : Call S) (part : S → Option S) (rest : Call S) (calls : List (Call S))
      → s.pc p ≡ calling c (part ∷ rest) calls
      → part s.shared ≡ none
      → Step s (record s { pc = set_pc p (thrown c calls) s.pc })
  unlock :
      (p : ℕ) (c : Call S) (calls : List (Call S))
      → s.pc p ≡ calling c [] calls
      → Step s (record s { is_locked = false; pc = set_pc p (waiting calls) s.pc })

pub data Reach {ℓ} {S : Type ℓ} (s : System S) : System S → Type ℓ where
  here : Reach s s
  next : {t u : System S} → Reach s t → Step t u → Reach s u

-- Nobody is in a call.
unfoldable pub at_start {ℓ} : {S : Type ℓ} → S → (ℕ → List (Call S)) → System S
at_start shared calls = record { shared = shared; is_locked = false; pc = λ p. waiting (calls p) }
