-- ===== src/Access/Ending.antt =====
-- buffer_cache.h, struct access: how a call comes to its end, and what becomes of one that throws.
use drumlin.Prelude.{
  ℕ, ◌≡◌, refl, sym, ap, ◌∙◌, subst, inl, inr, true, false, none, some, List, [], ◌∷◌, ◌==◌, ==_iff,
  ==_refl, Bool-cases, Option-cases, nat_eq, bytes_eq,
}
use drumlin.Access.{
  Call, waiting, calling, thrown, System, set_pc, Step, yield, try_lock, go_on, throw, unlock,
  Reach, here, next, at_start,
}
use mathlib.Core.Option.{some_inj, none-ne-some}
use drumlin.Access.Atomic.{run_call, Waits, IsAtomic}
use drumlin.Access.Keeping.{holder, Reach-IsAtomic}

pub Reach-append {ℓ} : {S : Type ℓ} {s t u : System S} → Reach s t → Reach t u → Reach s u
Reach-append r here = r
Reach-append r (next r' st) = next (Reach-append r r') st

true_ne_false : true ≡ false → ⊥
true_ne_false h = cc

-- Beside a thread that threw, no other is in a call.
none_calls {ℓ} :
    {S : Type ℓ} (start : S) (all : ℕ → List (Call S)) (s : System S) (h : ℕ) (c : Call S)
    (calls : List (Call S))
    → IsAtomic start all s
    → s.pc h ≡ thrown c calls
    → (p : ℕ) (d rest : Call S) (ds : List (Call S)) → s.pc p ≡ calling d rest ds
    → ⊥
unfolding Waits
none_calls start all s h c calls w e p d rest ds f =
    let (_, _, wait) =
      holder s.is_locked s.pc w.first s.shared h (thrown c calls) e (λ k. k) w.current in
    elim (Bool-cases (p == h)) [
      | inl same ↦
          let at : calling d rest ds ≡ thrown c calls = sym f ∙ ap s.pc ((==_iff p h).0 same) ∙ e in
          cc
      | inr other ↦ subst (λ x. Waits x) f (wait p other)
    ]

-- Beside a thread that threw, a step changes nothing.
step_none {ℓ} :
    {S : Type ℓ} (start : S) (all : ℕ → List (Call S)) {s t : System S} (h : ℕ) (c : Call S)
    (calls : List (Call S))
    → IsAtomic start all s
    → s.pc h ≡ thrown c calls
    → Step s t
    → t ≡ s
unfolding Waits
step_none start all h c calls w e (yield p d ds f taken) = refl
step_none start all {s} h c calls w e (try_lock p d ds f free) =
    let (locked, _, _) =
      holder s.is_locked s.pc w.first s.shared h (thrown c calls) e (λ k. k) w.current in
    absurd (true_ne_false (sym locked ∙ free))
step_none start all {s} h c calls w e (go_on p d part rest ds after f k) =
    absurd (none_calls start all s h c calls w e p d (part ∷ rest) ds f)
step_none start all {s} h c calls w e (throw p d part rest ds f k) =
    absurd (none_calls start all s h c calls w e p d (part ∷ rest) ds f)
step_none start all {s} h c calls w e (unlock p d ds f) =
    absurd (none_calls start all s h c calls w e p d [] ds f)

module _ {ℓ} {S : Type ℓ} (start : S) (all : ℕ → List (Call S)) where
  -- In a state that is reached from the start, where the call of a thread threw, nothing changes any more: neither
  -- the object nor what any thread has yet to do.
  pub thrown_stuck :
      (s t : System S) (h : ℕ) (c : Call S) (calls : List (Call S))
      → Reach (at_start start all) s
      → s.pc h ≡ thrown c calls
      → Reach s t
      → t ≡ s
  thrown_stuck s t h c calls r e here = refl
  thrown_stuck s _ h c calls r e (next {t} r' st) =
      let same = thrown_stuck s t h c calls r e r' in
      let there : t.pc h ≡ thrown c calls = ap (λ (u : System S). u.pc h) same ∙ e in
      step_none start all h c calls (Reach-IsAtomic start all (Reach-append r r')) there st ∙ same

module _ {ℓ} {S : Type ℓ} (p : ℕ) where
  -- The rest of a call, where it does not throw.
  rest_runs :
      (rest c : Call S) (calls : List (Call S)) (s : System S) (after : S)
      → s.pc p ≡ calling c rest calls
      → run_call rest s.shared ≡ some after
      → (t : System S) × Reach s t
        × (t.shared ≡ after)
        × (t.pc p ≡ calling c [] calls)
        × ((q : ℕ) → (q == p) ≡ false → t.pc q ≡ s.pc q)
  unfolding run_call
  rest_runs [] c calls s after e h = (s, here, some_inj.0 h, e, λ q d. refl)
  rest_runs (part ∷ rest) c calls s after e h = elim (Option-cases (part s.shared)) [
    | inl lost ↦
        let now : run_call (part ∷ rest) s.shared ≡ none = rw (lost, run_call) refl in
        absurd (none-ne-some after (sym now ∙ h))
    | inr (u, done) ↦
        let now : run_call (part ∷ rest) s.shared ≡ run_call rest u = rw (done, run_call) refl in
        let mid : System S = record s { shared = u; pc = set_pc p (calling c rest calls) s.pc } in
        let at : mid.pc p ≡ calling c rest calls = rw (==_refl p) refl in
        let (t, r, same, ends, others) = rest_runs rest c calls mid after at (sym now ∙ h) in
        (
          t,
          Reach-append (next here (go_on p c part rest calls u e done)) r,
          same,
          ends,
          λ q d. others q d ∙ rw d refl,
        )
  ]

  -- While the mutex is free, a thread whose next call does not throw can make it to its end: the object is then
  -- what the call makes of it, the mutex is free, the thread goes on with its further calls, and the
  -- others stand where they stood.
  pub call_returns :
      (c : Call S) (calls : List (Call S)) (s : System S) (after : S)
      → s.pc p ≡ waiting (c ∷ calls)
      → s.is_locked ≡ false
      → run_call c s.shared ≡ some after
      → (t : System S) × Reach s t
        × (t.shared ≡ after)
        × (t.is_locked ≡ false)
        × (t.pc p ≡ waiting calls)
        × ((q : ℕ) → (q == p) ≡ false → t.pc q ≡ s.pc q)
  call_returns c calls s after e free h =
      let mid : System S = record s { is_locked = true; pc = set_pc p (calling c c calls) s.pc } in
      let at : mid.pc p ≡ calling c c calls = rw (==_refl p) refl in
      let (t, r, same, ends, others) = rest_runs c c calls mid after at h in
      (
        record t { is_locked = false; pc = set_pc p (waiting calls) t.pc },
        next (Reach-append (next here (try_lock p c calls e free)) r) (unlock p c calls ends),
        same,
        refl,
        rw (==_refl p) refl,
        λ q d. rw d (others q d ∙ rw d refl),
      )
