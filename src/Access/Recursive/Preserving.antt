-- ===== src/Access/Recursive/Preserving.antt =====
-- buffer_cache.h, access::allocator: what every part of every call keeps, the threads keep.
use drumlin.Prelude.{
  ℕ, ◌≡◌, subst, inl, inr, Option, some, List, ◌==◌, Bool-cases, All, nat_eq, bytes_eq,
}
use drumlin.Access.{Call}
use drumlin.Access.Recursive.{
  Pc, waiting, calling, System, set_pc, Step, yield, try_lock, go_on, throw, unlock, Reach, here,
  next, at_start,
}

abbrev pub Keeps {ℓ κ} : {S : Type ℓ} → (S → Type κ) → (S → Option S) → Type (ℓ ⊔ κ)
Keeps {S = S} P part = (s t : S) → part s ≡ some t → P s → P t

-- All parts of the calls that a thread has yet to make are of a kind.
unfoldable Made {ℓ κ} : {S : Type ℓ} → ((S → Option S) → Type κ) → Pc S → Type κ
Made Q (waiting calls) = All (All Q) calls
Made Q (calling rest calls) = All Q rest × All (All Q) calls

module _ {ℓ κ} {S : Type ℓ} (P : S → Type κ) where
  Made-set :
      (s : System S) (p : ℕ) (new : Pc S)
      → Made (Keeps P) new
      → ((q : ℕ) → Made (Keeps P) (s.pc q))
      → (q : ℕ) → Made (Keeps P) (set_pc p new s.pc q)
  Made-set s p new m all q = elim (Bool-cases (q == p)) [ inl h ↦ rw h m | inr h ↦ rw h (all q) ]

  Step-Keeps :
      {s t : System S}
      → Step s t
      → P s.shared × ((q : ℕ) → Made (Keeps P) (s.pc q))
      → P t.shared × ((q : ℕ) → Made (Keeps P) (t.pc q))
  unfolding Made
  Step-Keeps (yield p c calls e busy other) w = w
  Step-Keeps {s} (try_lock p c calls e free) (now, all) =
      let (call, more) = subst (λ x. Made (Keeps P) x) e (all p) in
      (now, Made-set s p (calling c calls) (call, more) all)
  Step-Keeps {s} (go_on p part rest calls after e h) (now, all) =
      let ((one, left), more) = subst (λ x. Made (Keeps P) x) e (all p) in
      (one s.shared after h now, Made-set s p (calling rest calls) (left, more) all)
  Step-Keeps {s} (throw p part rest calls e h) (now, all) =
      let (_, more) = subst (λ x. Made (Keeps P) x) e (all p) in
      (now, Made-set s p (waiting calls) more all)
  Step-Keeps {s} (unlock p calls e) (now, all) =
      let (_, more) = subst (λ x. Made (Keeps P) x) e (all p) in
      (now, Made-set s p (waiting calls) more all)

  module _ (start : S) (calls : ℕ → List (Call S)) where
    Reach-Made :
        {s : System S}
        → ((p : ℕ) → All (All (Keeps P)) (calls p))
        → P start
        → Reach (at_start start calls) s
        → P s.shared × ((q : ℕ) → Made (Keeps P) (s.pc q))
    unfolding at_start Made
    Reach-Made all first here = (first, all)
    Reach-Made all first (next r st) = Step-Keeps st (Reach-Made all first r)

    -- What each part of each call keeps where it does not throw, and what holds of the object at the
    -- start, holds of it in every state that the threads reach, also in the midst of a call.
    pub Reach-Keeps :
        (s : System S)
        → ((p : ℕ) → All (All (Keeps P)) (calls p))
        → P start
        → Reach (at_start start calls) s
        → P s.shared
    Reach-Keeps s all first r = (Reach-Made all first r).0
