-- ===== src/Access/Recursive/Holding.antt =====
-- buffer_cache.h, access::allocator: who is in a call, and what becomes of the others behind one that throws.
use drumlin.Prelude.{
  Option, ℕ, ◌+◌, ◌-◌, ◌≤◌, ◌<◌, ◌≡◌, ◌≢◌, refl, sym, ap, ◌∙◌, subst, ◌⊎◌, inl, inr, true, false,
  none, List, [], ◌∷◌, arith, ◌==◌, if◌then◌else◌, ==_iff, ==_refl, Bool-cases, nat_eq, bytes_eq,
}
use drumlin.Access.{Call}
use drumlin.Access.Recursive.{
  Pc, waiting, calling, System, set_pc, Step, yield, try_lock, go_on, throw, unlock, Reach, here,
  next, at_start,
}

unfoldable inside {ℓ} : {S : Type ℓ} → Pc S → ℕ
inside (waiting calls) = 0
inside (calling rest calls) = 1

-- A thread in a call has the mutex.
IsHeld {ℓ} : {S : Type ℓ} → System S → Type 0
IsHeld s = (q : ℕ) → inside (s.pc q) ≤ (if q == s.owner then s.depth else 0)

module _ {ℓ} {S : Type ℓ} (s : System S) (held : IsHeld s) (p : ℕ) where
  -- The thread that is in a call.
  owner_lem : (x : Pc S) → s.pc p ≡ x → inside x ≡ 1 → (s.owner ≡ p) × (0 < s.depth)
  unfolding IsHeld
  owner_lem x e one =
      let bound = held p in
      let in_call : inside (s.pc p) ≡ 1 = ap inside e ∙ one in
      ground (arith, bound, in_call, ==_iff p s.owner)

  other_waits : s.owner ≢ p → inside (s.pc p) ≡ 0
  unfolding IsHeld
  other_waits d = let bound = held p in ground (arith, bound, ==_iff p s.owner)

  -- Thread p moves to `new`, and has the mutex `depth` times.
  IsHeld-set :
      (new : Pc S) (shared : S) (depth : ℕ)
      → (s.depth ≡ 0) ⊎ (s.owner ≡ p)
      → inside new ≤ depth
      → IsHeld (record { shared = shared; owner = p; depth = depth; pc = set_pc p new s.pc })
  unfolding IsHeld
  IsHeld-set new shared depth free fits q = elim (Bool-cases (q == p)) [
    | inl h ↦ rw h fits
    | inr h ↦
        let bound = held q in
        let none_there : inside (s.pc q) ≡ 0 = elim free [
          | inl zero_depth ↦ ground (arith, bound, zero_depth)
          | inr own ↦ ground (arith, bound, h, own, ==_iff q p, ==_iff q s.owner)
        ] in
        rw (h, none_there) (omega arith)
  ]

  -- The same where p is the owner already.
  IsHeld-own :
      (x new : Pc S) (shared : S) (depth : ℕ)
      → s.pc p ≡ x
      → inside x ≡ 1
      → inside new ≤ depth
      → IsHeld (record s { shared = shared; depth = depth; pc = set_pc p new s.pc })
  IsHeld-own x new shared depth e one fits =
      let (own, _) = owner_lem x e one in
      subst
        (λ o. IsHeld (record { shared = shared; owner = o; depth = depth; pc = set_pc p new s.pc }))
        (sym own) (IsHeld-set new shared depth (inr own) fits)

Step-IsHeld {ℓ} : {S : Type ℓ} {s t : System S} → Step s t → IsHeld s → IsHeld t
unfolding inside
Step-IsHeld (yield p c calls e busy other) held = held
Step-IsHeld {s} (try_lock p c calls e free) held =
    IsHeld-set s held p (calling c calls) s.shared (s.depth + 1) free (omega arith)
Step-IsHeld {s} (go_on p part rest calls after e k) held =
    let x = calling (part ∷ rest) calls in
    let (_, some_depth) = owner_lem s held p x e refl in
    IsHeld-own s held p x (calling rest calls) after s.depth e refl (omega (arith, some_depth))
Step-IsHeld {s} (throw p part rest calls e k) held =
    IsHeld-own s held p (calling (part ∷ rest) calls) (waiting calls) s.shared s.depth e refl
      (omega arith)
Step-IsHeld {s} (unlock p calls e) held =
    IsHeld-own s held p (calling [] calls) (waiting calls) s.shared (s.depth - 1) e refl
      (omega arith)

-- Thread p has the mutex once more often than its calls will release it.
record IsJammed {ℓ} {S : Type ℓ} (p : ℕ) (s : System S) : Type 0 where
  pub owns : s.owner ≡ p
  pub kept : inside (s.pc p) < s.depth

-- Thread p has the mutex, and no other thread has come further.
abbrev pub Excludes {ℓ} : {S : Type ℓ} → ℕ → System S → System S → Type ℓ
Excludes p s t = (t.owner ≡ p) × (0 < t.depth) × ((q : ℕ) → (q == p) ≡ false → t.pc q ≡ s.pc q)

module _ {ℓ} {S : Type ℓ} (p : ℕ) (s : System S) (held : IsHeld s) (j : IsJammed p s) where
  -- A thread in a call is p.
  calls_alone : (q : ℕ) (x : Pc S) → s.pc q ≡ x → inside x ≡ 1 → q ≡ p
  calls_alone q x e one = sym (owner_lem s held q x e one).0 ∙ j.owns

  moves_alone :
      (q : ℕ) (new : Pc S) (shared : S) (depth : ℕ)
      → q ≡ p
      → inside new < depth
      → let t = record s { shared = shared; depth = depth; pc = set_pc q new s.pc } in
        IsJammed p t × ((r : ℕ) → (r == p) ≡ false → t.pc r ≡ s.pc r)
  moves_alone q new shared depth same fits =
      let at : (p == q) ≡ true = (==_iff p q).1 (sym same) in
      (record { owns = j.owns; kept = rw at fits }, λ r d. rw (same, d) refl)

Step-IsJammed {ℓ} :
    {S : Type ℓ} (p : ℕ) {s t : System S}
    → Step s t
    → IsHeld s
    → IsJammed p s
    → IsJammed p t × ((r : ℕ) → (r == p) ≡ false → t.pc r ≡ s.pc r)
unfolding inside
Step-IsJammed p (yield q c calls e busy other) held j = (j, λ r d. refl)
Step-IsJammed p {s} (try_lock q c calls e free) held j =
    let kept = j.kept in
    let same : q ≡ p = elim free [
      | inl z ↦ absurd (omega (arith, z, kept))
      | inr own ↦ sym own ∙ j.owns
    ] in
    let (later, stay) =
      moves_alone p s held j q (calling c calls) s.shared (s.depth + 1) same
        (omega (arith, kept)) in
    (record { owns = same; kept = later.kept }, stay)
Step-IsJammed p {s} (go_on q part rest calls after e k) held j =
    let same = calls_alone p s held j q (calling (part ∷ rest) calls) e refl in
    let kept = j.kept in
    let one : inside (s.pc p) ≡ 1 = ap (λ x. inside (s.pc x)) (sym same) ∙ ap inside e in
    moves_alone p s held j q (calling rest calls) after s.depth same (omega (arith, kept, one))
Step-IsJammed p {s} (throw q part rest calls e k) held j =
    let same = calls_alone p s held j q (calling (part ∷ rest) calls) e refl in
    let kept = j.kept in
    moves_alone p s held j q (waiting calls) s.shared s.depth same (omega (arith, kept))
Step-IsJammed p {s} (unlock q calls e) held j =
    let same = calls_alone p s held j q (calling [] calls) e refl in
    let kept = j.kept in
    let one : inside (s.pc p) ≡ 1 = ap (λ x. inside (s.pc x)) (sym same) ∙ ap inside e in
    moves_alone p s held j q (waiting calls) s.shared (s.depth - 1) same (omega (arith, kept, one))

module _ {ℓ} {S : Type ℓ} (start : S) (calls : ℕ → List (Call S)) where
  Reach-IsHeld : {s : System S} → Reach (at_start start calls) s → IsHeld s
  unfolding at_start IsHeld inside
  Reach-IsHeld here = λ q. omega arith
  Reach-IsHeld (next r st) = Step-IsHeld st (Reach-IsHeld r)

  jammed_lem :
      (p : ℕ) (s t : System S)
      → Reach (at_start start calls) s
      → IsJammed p s
      → Reach s t
      → IsHeld t × IsJammed p t × ((q : ℕ) → (q == p) ≡ false → t.pc q ≡ s.pc q)
  jammed_lem p s t r j here = (Reach-IsHeld r, j, λ q d. refl)
  jammed_lem p s _ r j (next {t} r' st) =
      let (held, now, stay) = jammed_lem p s t r j r' in
      let (later, stay') = Step-IsJammed p st held now in
      (Step-IsHeld st held, later, λ q d. stay' q d ∙ stay q d)

  -- A thread that can take the mutex, and whose next call throws in its first part, can come to where it has
  -- thrown: the object is as it was, and from then on, whatever the threads do, it has the mutex, and
  -- no other thread comes any further.
  pub throw-Excludes :
      (s : System S) (p : ℕ) (part : S → Option S) (rest : Call S) (more : List (Call S))
      → Reach (at_start start calls) s
      → (s.depth ≡ 0) ⊎ (s.owner ≡ p)
      → s.pc p ≡ waiting ((part ∷ rest) ∷ more)
      → part s.shared ≡ none
      → (t : System S) × Reach s t
        × (t.shared ≡ s.shared)
        × (t.pc p ≡ waiting more)
        × ((u : System S) → Reach t u → Excludes p t u)
  unfolding inside
  throw-Excludes s p part rest more r free e k =
      let c = part ∷ rest in
      let mid : System S = record s {
        owner = p;
        depth = s.depth + 1;
        pc = set_pc p (calling c more) s.pc;
      } in
      let at : mid.pc p ≡ calling c more = rw (==_refl p) refl in
      let end : System S = record mid { pc = set_pc p (waiting more) mid.pc } in
      let there : end.pc p ≡ waiting more = rw (==_refl p) refl in
      let first : Reach s mid = next here (try_lock p c more e free) in
      let second = throw p part rest more at k in
      let whole : Reach (at_start start calls) end =
        next (next r (try_lock p c more e free)) second in
      let j : IsJammed p end = record { owns = refl; kept = rw there (omega arith) } in
      (
        end,
        next first second,
        refl,
        there,
        λ u onward.
            let (_, now, stay) = jammed_lem p end u whole j onward in
            let kept = now.kept in (now.owns, omega (arith, kept), stay),
      )
