-- ===== src/Access/Keeping.antt =====
-- buffer_cache.h, struct access: each step keeps the calls one after the other.
use drumlin.Prelude.{
  ℕ, ◌≡◌, refl, sym, ap, ◌∙◌, subst, inl, inr, Bool, true, false, some, List, [], ◌∷◌, ◌++◌,
  append-nil, append_assoc, ◌==◌, ==_iff, ==_refl, Bool-cases, nat_eq, bytes_eq,
}
use drumlin.Access.{
  Call, Pc, waiting, calling, thrown, System, set_pc, Step, yield, try_lock, go_on, throw, unlock,
  Reach, here, next, at_start,
}
use drumlin.Access.Atomic.{
  run_call, run_calls, of_thread, left, Waits, Calls, IsCurrent, run_call-append, run_calls-append,
  of_thread_own, of_thread_other, IsAtomic,
}

-- A thread that does not wait is the one that has the mutex.
pub holder {ℓ} :
    {S : Type ℓ} (b : Bool) (pc : ℕ → Pc S) (first now : S) (p : ℕ) (x : Pc S)
    → pc p ≡ x
    → (Waits x → ⊥)
    → IsCurrent b pc first now
    → (b ≡ true) × Calls x first now × ((q : ℕ) → (q == p) ≡ false → Waits (pc q))
unfolding IsCurrent
holder false pc first now p x e busy (_, wait) = absurd (busy (subst (λ y. Waits y) e (wait p)))
holder true pc first now p x e busy (h, calls, wait) = elim (Bool-cases (p == h)) [
  | inl same ↦
      let at : h ≡ p = sym ((==_iff p h).0 same) in
      (refl, subst (λ y. Calls y first now) (ap pc at ∙ e) calls, λ q d. wait q (rw at d))
  | inr other ↦ absurd (busy (subst (λ y. Waits y) e (wait p other)))
]

module _ {ℓ} {S : Type ℓ} (start : S) (all : ℕ → List (Call S)) (s : System S)
    (w : IsAtomic start all s) (p : ℕ) where
  kept_set :
      (new : Pc S)
      → left new ≡ left (s.pc p)
      → (q : ℕ) → of_thread q w.done ++ left (set_pc p new s.pc q) ≡ all q
  kept_set new e q = elim (Bool-cases (q == p)) [
    | inl h ↦ rw (h, e, sym ((==_iff q p).0 h)) (w.kept q)
    | inr h ↦ rw h (w.kept q)
  ]

  others_wait :
      (new : Pc S)
      → ((q : ℕ) → (q == p) ≡ false → Waits (s.pc q))
      → (q : ℕ) → (q == p) ≡ false
      → Waits (set_pc p new s.pc q)
  others_wait new wait q d = rw d (wait q d)

  -- Where thread p has the mutex behind a step, at `new`.
  calling-IsAtomic :
      (new : Pc S) (now : S)
      → left new ≡ left (s.pc p)
      → Calls new w.first now
      → ((q : ℕ) → (q == p) ≡ false → Waits (s.pc q))
      → IsAtomic start all (record { shared = now; is_locked = true; pc = set_pc p new s.pc })
  unfolding IsCurrent
  calling-IsAtomic new now e calls wait =
      let at : set_pc p new s.pc p ≡ new = rw (==_refl p) refl in
      record {
        done = w.done;
        first = w.first;
        ran = w.ran;
        current = (p, subst (λ y. Calls y w.first now) (sym at) calls, others_wait new wait);
        kept = kept_set new e;
      }

  unlock-IsAtomic :
      (c : Call S) (calls : List (Call S))
      → s.pc p ≡ calling c [] calls
      → IsAtomic start all (record s { is_locked = false; pc = set_pc p (waiting calls) s.pc })
  unfolding IsCurrent Calls Waits left
  unlock-IsAtomic c calls e =
      let (_, (past, whole, ran), wait) =
        holder s.is_locked s.pc w.first s.shared p (calling c [] calls) e (λ h. h) w.current in
      let ended : run_call c w.first ≡ some s.shared =
        ap (λ d. run_call d w.first) (whole ∙ append-nil past) ∙ ran in
      let before_p : of_thread p w.done ++ c ∷ calls ≡ all p =
        subst (λ x. of_thread p w.done ++ left x ≡ all p) e (w.kept p) in
      record {
        done = w.done ++ (p, c) ∷ [];
        first = s.shared;
        ran = run_calls-append w.done p c start w.first s.shared w.ran ended;
        current =
            (refl, λ q. elim (Bool-cases (q == p)) [ inl h ↦ rw h tt | inr h ↦ rw h (wait q h) ]);
        kept = λ q. elim (Bool-cases (q == p)) [
          | inl h ↦
              rw
                (
                  h,
                  (==_iff q p).0 h,
                  of_thread_own p c w.done,
                  append_assoc (of_thread p w.done) (c ∷ []) calls,
                )
                before_p
          | inr h ↦ rw (h, of_thread_other p q c w.done h) (w.kept q)
        ];
      }

Step-IsAtomic {ℓ} :
    {S : Type ℓ} (start : S) (all : ℕ → List (Call S)) {s t : System S}
    → Step s t
    → IsAtomic start all s
    → IsAtomic start all t
unfolding IsCurrent Calls Waits left run_call
Step-IsAtomic start all (yield p c calls e taken) w = w
Step-IsAtomic start all {s} (try_lock p c calls e free) w =
    let (same, wait) = subst (λ b. IsCurrent b s.pc w.first s.shared) free w.current in
    calling-IsAtomic start all s w p (calling c c calls) s.shared (sym (ap left e))
      ([], refl, ap some (sym same)) (λ q _. wait q)
Step-IsAtomic start all {s} (go_on p c part rest calls after e h) w =
    let x = calling c (part ∷ rest) calls in
    let (locked, (past, whole, ran), wait) =
      holder s.is_locked s.pc w.first s.shared p x e (λ f. f) w.current in
    let new = calling c rest calls in
    subst
      (λ b. IsAtomic start all (record { shared = after; is_locked = b; pc = set_pc p new s.pc }))
      (sym locked)
      (calling-IsAtomic start all s w p new after (sym (ap left e))
        (
          past ++ part ∷ [],
          whole ∙ sym (append_assoc past (part ∷ []) rest),
          run_call-append past part w.first s.shared after ran h,
        )
        wait)
Step-IsAtomic start all {s} (throw p c part rest calls e h) w =
    let x = calling c (part ∷ rest) calls in
    let (locked, (past, whole, ran), wait) =
      holder s.is_locked s.pc w.first s.shared p x e (λ f. f) w.current in
    let new = thrown c calls in
    subst
      (λ b.
        IsAtomic start all (record { shared = s.shared; is_locked = b; pc = set_pc p new s.pc }))
      (sym locked)
      (calling-IsAtomic start all s w p new s.shared (sym (ap left e))
        (past, part, rest, whole, ran, h) wait)
Step-IsAtomic start all {s} (unlock p c calls e) w = unlock-IsAtomic start all s w p c calls e

module _ {ℓ} {S : Type ℓ} (start : S) (calls : ℕ → List (Call S)) where
  pub Reach-IsAtomic : {s : System S} → Reach (at_start start calls) s → IsAtomic start calls s
  unfolding at_start IsCurrent Waits left of_thread run_calls
  Reach-IsAtomic here = record {
    done = [];
    first = start;
    ran = refl;
    current = (refl, λ p. tt);
    kept = λ p. refl;
  }
  Reach-IsAtomic (next r st) = Step-IsAtomic start calls st (Reach-IsAtomic r)

  -- However the threads' steps follow one another, the calls that have ended did what they do one after the
  -- other, in some order, none of which throws there. While the mutex is free, the object is as they left
  -- it; while it is taken, one thread is in a call, has brought the object from there to where it
  -- is, or has thrown, and all others wait. The calls of each thread that have ended, with those that it
  -- has yet to end, are its calls, in their order.
  pub Reach-runs :
      (s : System S)
      → Reach (at_start start calls) s
      → (done : List (ℕ × Call S)) × (first : S) × (run_calls done start ≡ some first)
        × IsCurrent s.is_locked s.pc first s.shared
        × ((p : ℕ) → of_thread p done ++ left (s.pc p) ≡ calls p)
  Reach-runs s r = let w = Reach-IsAtomic r in (w.done, w.first, w.ran, w.current, w.kept)
