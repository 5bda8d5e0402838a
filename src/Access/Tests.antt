-- ===== src/Access/Tests.antt =====
-- Concrete runs of the theorems of the access to shared objects.
use drumlin.Prelude.{
  ℕ, ◌+◌, ◌≡◌, refl, Bool, true, false, Option, none, some, List, [], ◌∷◌, ◌++◌, ◌==◌,
  if◌then◌else◌, nat_eq, bytes_eq,
}
use drumlin.Access.{
  Call, Pc, waiting, calling, thrown, System, set_pc, yield, try_lock, go_on, throw, unlock, Reach,
  here, next, at_start,
}
use drumlin.Access.Atomic.{run_call, run_calls, of_thread, left, IsCurrent}
use drumlin.Access.Keeping.{Reach-runs}
use drumlin.Access.Ending.{thrown_stuck, call_returns}

abbrev bump : ℕ → Option ℕ
bump n = some (n + 1)

abbrev refuse : ℕ → Option ℕ
refuse n = none

-- Thread 1 calls twice, and the second call of thread 2 throws behind its first part.
abbrev calls : ℕ → List (Call ℕ)
calls p =
    if p == 1
    then (bump ∷ bump ∷ []) ∷ (bump ∷ []) ∷ []
    else if p == 2
    then (bump ∷ refuse ∷ []) ∷ []
    else []

abbrev moved : ℕ → Bool → ℕ → Pc ℕ → System ℕ → System ℕ
moved shared is_locked p pc s = record {
  shared = shared;
  is_locked = is_locked;
  pc = set_pc p pc s.pc;
}

abbrev state_0 : System ℕ
state_0 = at_start 5 calls

abbrev first_call : Call ℕ
first_call = bump ∷ bump ∷ []

abbrev bad_call : Call ℕ
bad_call = bump ∷ refuse ∷ []

abbrev more_calls : List (Call ℕ)
more_calls = (bump ∷ []) ∷ []

abbrev state_1 : System ℕ
state_1 = moved 5 true 1 (calling first_call first_call more_calls) state_0

abbrev state_2 : System ℕ
state_2 = moved 6 true 1 (calling first_call (bump ∷ []) more_calls) state_1

abbrev state_3 : System ℕ
state_3 = moved 7 true 1 (calling first_call [] more_calls) state_2

abbrev state_4 : System ℕ
state_4 = moved 7 false 1 (waiting more_calls) state_3

abbrev state_5 : System ℕ
state_5 = moved 7 true 2 (calling bad_call bad_call []) state_4

abbrev state_6 : System ℕ
state_6 = moved 8 true 2 (calling bad_call (refuse ∷ []) []) state_5

abbrev state_7 : System ℕ
state_7 = moved 8 true 2 (thrown bad_call []) state_6

state_2_reached : Reach state_0 state_2
unfolding at_start
state_2_reached =
    next (next here (try_lock 1 first_call more_calls refl refl))
      (go_on 1 first_call bump (bump ∷ []) more_calls 6 refl refl)

-- Thread 2 tries in vain while thread 1 is in its call.
state_6_reached : Reach state_0 state_6
unfolding at_start
state_6_reached =
    next
      (next
        (next
          (next (next state_2_reached (yield 2 bad_call [] refl refl))
            (go_on 1 first_call bump [] more_calls 7 refl refl))
          (unlock 1 first_call more_calls refl))
        (try_lock 2 bad_call [] refl refl))
      (go_on 2 bad_call bump (refuse ∷ []) [] 8 refl refl)

state_7_reached : Reach state_0 state_7
unfolding at_start
state_7_reached = next state_6_reached (throw 2 bad_call refuse [] [] refl refl)

Reach-runs_example :
    (done : List (ℕ × Call ℕ)) × (first : ℕ) × (run_calls done 5 ≡ some first)
    × IsCurrent state_6.is_locked state_6.pc first state_6.shared
    × ((p : ℕ) → of_thread p done ++ left (state_6.pc p) ≡ calls p)
Reach-runs_example = Reach-runs 5 calls state_6 state_6_reached

thrown_stuck_example : state_7 ≡ state_7
unfolding at_start
thrown_stuck_example =
    thrown_stuck 5 calls state_7 state_7 2 bad_call [] state_7_reached refl
      (next here (yield 1 (bump ∷ []) [] refl refl))

call_returns_example :
    (t : System ℕ) × Reach state_4 t
    × (t.shared ≡ 8)
    × (t.is_locked ≡ false)
    × (t.pc 1 ≡ waiting [])
    × ((q : ℕ) → (q == 1) ≡ false → t.pc q ≡ state_4.pc q)
unfolding run_call
call_returns_example = call_returns 1 (bump ∷ []) [] state_4 8 refl refl refl
