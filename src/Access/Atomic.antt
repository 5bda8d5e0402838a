-- ===== src/Access/Atomic.antt =====
-- buffer_cache.h, struct access: the calls of threads that run next to one another do what they do one after the
-- other.
use drumlin.Prelude.{
  ℕ, ◌≡◌, refl, sym, ◌∙◌, inl, inr, Bool, true, false, Option, none, some, List, [], ◌∷◌, ◌++◌,
  arith, ◌==◌, if◌then◌else◌, ==_iff, ==_refl, Option-cases, nat_eq, bytes_eq,
}
use mathlib.Core.Option.{some_inj, none-ne-some}
use drumlin.Access.{Call, Pc, waiting, calling, thrown, System}

-- A call on its own, and calls one after the other.
unfoldable pub run_call {ℓ} : {S : Type ℓ} → Call S → S → Option S
run_call [] s = some s
run_call (part ∷ rest) s = elim (part s) [ none ↦ none | some t ↦ run_call rest t ]

unfoldable pub run_calls {ℓ} : {S : Type ℓ} → List (ℕ × Call S) → S → Option S
unfolding run_call
run_calls [] s = some s
run_calls ((p, c) ∷ calls) s = elim (run_call c s) [ none ↦ none | some t ↦ run_calls calls t ]

unfoldable pub of_thread {ℓ} : {S : Type ℓ} → ℕ → List (ℕ × Call S) → List (Call S)
of_thread p [] = []
of_thread p ((q, c) ∷ done) = let rest = of_thread p done in if q == p then c ∷ rest else rest

-- The calls that a thread has not ended.
unfoldable pub left {ℓ} : {S : Type ℓ} → Pc S → List (Call S)
left (waiting calls) = calls
left (calling c rest calls) = c ∷ calls
left (thrown c calls) = c ∷ calls

unfoldable pub Waits {ℓ} : {S : Type ℓ} → Pc S → Type 0
Waits (waiting calls) = Unit
Waits (calling c rest calls) = ⊥
Waits (thrown c calls) = ⊥

-- A thread in a call that began at one state and has come to another, or has thrown there.
unfoldable pub Calls {ℓ} : {S : Type ℓ} → Pc S → S → S → Type ℓ
unfolding run_call
Calls (waiting calls) first now = Unit {ℓ} × ⊥
Calls {S = S} (calling c rest calls) first now =
    (past : Call S) × (c ≡ past ++ rest) × (run_call past first ≡ some now)
Calls {S = S} (thrown c calls) first now =
    (past : Call S) × (part : S → Option S) × (rest : Call S) × (c ≡ past ++ part ∷ rest)
    × (run_call past first ≡ some now)
    × (part now ≡ none)

-- Where the mutex is free, the object is as the calls left it that have ended; where it is taken, one thread is in
-- a call, and has done the first part of it. All others wait.
unfoldable pub IsCurrent {ℓ} : {S : Type ℓ} → Bool → (ℕ → Pc S) → S → S → Type ℓ
IsCurrent false pc first now = (now ≡ first) × ((p : ℕ) → Waits (pc p))
IsCurrent true pc first now =
    (h : ℕ) × Calls (pc h) first now × ((p : ℕ) → (p == h) ≡ false → Waits (pc p))

pub run_call-append {ℓ} :
    {S : Type ℓ} (xs : Call S) (part : S → Option S) (s t u : S)
    → run_call xs s ≡ some t
    → part t ≡ some u
    → run_call (xs ++ part ∷ []) s ≡ some u
unfolding run_call
run_call-append [] part s t u h k = rw (some_inj.0 h, k) refl
run_call-append (x ∷ xs) part s t u h k = elim (Option-cases (x s)) [
  | inl e ↦
      let now : run_call (x ∷ xs) s ≡ none = rw (e, run_call) refl in
      absurd (none-ne-some t (sym now ∙ h))
  | inr (v, e) ↦
      let now : run_call (x ∷ xs) s ≡ run_call xs v = rw (e, run_call) refl in
      rw (e, run_call) (run_call-append xs part v t u (sym now ∙ h) k)
]

pub run_calls-append {ℓ} :
    {S : Type ℓ} (done : List (ℕ × Call S)) (p : ℕ) (c : Call S) (s t u : S)
    → run_calls done s ≡ some t
    → run_call c t ≡ some u
    → run_calls (done ++ (p, c) ∷ []) s ≡ some u
unfolding run_calls
run_calls-append [] p c s t u h k = rw (some_inj.0 h, k, run_calls) refl
run_calls-append ((q, d) ∷ done) p c s t u h k = elim (Option-cases (run_call d s)) [
  | inl e ↦
      let now : run_calls ((q, d) ∷ done) s ≡ none = rw (e, run_calls) refl in
      absurd (none-ne-some t (sym now ∙ h))
  | inr (v, e) ↦
      let now : run_calls ((q, d) ∷ done) s ≡ run_calls done v = rw (e, run_calls) refl in
      rw (e, run_calls) (run_calls-append done p c v t u (sym now ∙ h) k)
]

pub of_thread_own {ℓ} :
    {S : Type ℓ} (p : ℕ) (c : Call S) (done : List (ℕ × Call S))
    → of_thread p (done ++ (p, c) ∷ []) ≡ of_thread p done ++ c ∷ []
unfolding of_thread
of_thread_own p c [] = rw (==_refl p) refl
of_thread_own p c ((q, d) ∷ done) = ground (arith, of_thread_own p c done)

pub of_thread_other {ℓ} :
    {S : Type ℓ} (p q : ℕ) (c : Call S) (done : List (ℕ × Call S))
    → (q == p) ≡ false
    → of_thread q (done ++ (p, c) ∷ []) ≡ of_thread q done
unfolding of_thread
of_thread_other p q c [] h = ground (arith, ==_iff p q, ==_iff q p)
of_thread_other p q c ((r, d) ∷ done) h = ground (arith, of_thread_other p q c done h)

-- What the calls that have ended did to the object, in which order, and what each thread has yet to end.
pub record IsAtomic {ℓ} {S : Type ℓ} (start : S) (all : ℕ → List (Call S)) (s : System S)
    : Type ℓ where
  pub done : List (ℕ × Call S)
  pub first : S
  pub ran : run_calls done start ≡ some first
  pub current : IsCurrent s.is_locked s.pc first s.shared
  pub kept : (p : ℕ) → of_thread p done ++ left (s.pc p) ≡ all p
