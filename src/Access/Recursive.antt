-- ===== src/Access/Recursive.antt =====
-- buffer_cache.h, access::allocator: a call of the allocator, whose mutex is a std::recursive_mutex (allocator.h).
-- The thread that has the mutex takes it again, once more for each call, and a call that throws leaves it
-- taken once too often: the thread goes on with its further calls. A call is the list of what it does to the
-- object, a part at a time, and a part that is `none` throws.
pub mod Holding
pub mod Preserving
use drumlin.Prelude.{
  ℕ, ◌+◌, ◌-◌, ◌≡◌, ◌≢◌, ◌⊎◌, Option, none, some, List, [], ◌∷◌, ◌==◌, if◌then◌else◌, nat_eq,
  bytes_eq,
}
use drumlin.Access.{Call}

pub data Pc {ℓ} (S : Type ℓ) : Type ℓ where
  waiting : List (Call S) → Pc S
  calling : Call S → List (Call S) → Pc S

-- `owner` has the mutex `depth` times; where that is 0, nobody has it.
pub record System {ℓ} (S : Type ℓ) : Type ℓ where
  pub shared : S
  pub owner : ℕ
  pub depth : ℕ
  pub pc : ℕ → Pc S

abbrev pub set_pc {ℓ} : {S : Type ℓ} → ℕ → Pc S → (ℕ → Pc S) → ℕ → Pc S
set_pc p c pc q = if q == p then c else pc q

pub data Step {ℓ} {S : Type ℓ} (s : System S) : System S → Type ℓ where
  yield :
      (p : ℕ) (c : Call S) (calls : List (Call S))
      → s.pc p ≡ waiting (c ∷ calls)
      → s.depth ≢ 0
      → s.owner ≢ p
      → Step s s
  try_lock :
      (p : ℕ) (c : Call S) (calls : List (Call S))
      → s.pc p ≡ waiting (c ∷ calls)
      → (s.depth ≡ 0) ⊎ (s.owner ≡ p)
      → Step s (record s { owner = p; depth = s.depth + 1; pc = set_pc p (calling c calls) s.pc })
  go_on :
      (p : ℕ) (part : S → Option S) (rest : Call S) (calls : List (Call S)) (after : S)
      → s.pc p ≡ calling (part ∷ rest) calls
      → part s.shared ≡ some after
      → Step s (record s { shared = after; pc = set_pc p (calling rest calls) s.pc })
  throw :
      (p : ℕ) (part : S → Option S) (rest : Call S) (calls : List (Call S))
      → s.pc p ≡ calling (part ∷ rest) calls
      → part s.shared ≡ none
      → Step s (record s { pc = set_pc p (waiting calls) s.pc })
  unlock :
      (p : ℕ) (calls : List (Call S))
      → s.pc p ≡ calling [] calls
      → Step s (record s { depth = s.depth - 1; pc = set_pc p (waiting calls) s.pc })

pub data Reach {ℓ} {S : Type ℓ} (s : System S) : System S → Type ℓ where
  here : Reach s s
  next : {t u : System S} → Reach s t → Step t u → Reach s u

-- Nobody is in a call.
unfoldable pub at_start {ℓ} : {S : Type ℓ} → S → (ℕ → List (Call S)) → System S
at_start shared calls = record {
  shared = shared;
  owner = 0;
  depth = 0;
  pc = λ p. waiting (calls p);
}
