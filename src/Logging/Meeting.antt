-- ===== src/Logging/Meeting.antt =====
-- thread.cpp and event.cpp: a thread that quits and one that sends to it can come to wait for one another.
use drumlin.Prelude.{
  ℕ, ◌≡◌, refl, sym, ap, ◌∙◌, subst, ◌≢◌, inl, inr, Bool, true, false, Option, none, some, List, [],
  ◌∷◌, ◌++◌, arith, ◌==◌, if◌then◌else◌, ==_iff, ==_refl, Bool-cases, Option-cases, take, drop,
  take-append-drop, Bytes, nat_eq, bytes_eq,
}
use mathlib.Core.Option.{some_inj, none-ne-some}
use mathlib.Core.Path.{fun_ext}
use drumlin.Logging.{
  critical, internal, Act, lock_log, unlock_log, lock, unlock, write, Integer, Call, quitting,
  sending, perform_all, System, is_open, release, act, set_rest, step, Reach, here, next,
}
use drumlin.Logging.Keeping.{at_start}
use drumlin.Logging.Jammed.{has, IsJammed, Reach-append}

-- Thread p on its own.
unfoldable pub acts_of : ℕ → List Act → System → Option System
acts_of p [] s = some s
acts_of p (a ∷ acts) s = elim (act p a s) [ none ↦ none | some after ↦ acts_of p acts after ]

-- An act neither reads nor writes what the threads have yet to do.
with_rest : (ℕ → List Act) → Option System → Option System
with_rest rest none = none
with_rest rest (some s) = some (record s { rest = rest })

act-rest :
    (p : ℕ) (a : Act) (s : System) (rest : ℕ → List Act)
    → act p a (record s { rest = rest }) ≡ with_rest rest (act p a s)
unfolding act with_rest
act-rest p lock_log s rest = elim (Option-cases s.owner) [
  | inl e ↦ rw (e, act, with_rest) refl
  | inr (q, e) ↦ rw (e, act, with_rest) refl
]
act-rest p unlock_log s rest = refl
act-rest p (lock m) s rest = elim (Bool-cases (is_open p m s.held)) [
  | inl e ↦ rw (e, act, with_rest) refl
  | inr e ↦ rw (e, act, with_rest) refl
]
act-rest p (unlock m) s rest = refl
act-rest p (write str) s rest = refl

set_rest_twice :
    (p : ℕ) (xs ys : List Act) (rest : ℕ → List Act)
    → set_rest p ys (set_rest p xs rest) ≡ set_rest p ys rest
set_rest_twice p xs ys rest = fun_ext (λ q. twice (q == p) (rest q))
  where
    twice :
        (b : Bool) (zs : List Act)
        → (if b then ys else (if b then xs else zs)) ≡ (if b then ys else zs)
    twice true zs = refl
    twice false zs = refl

set_rest_same :
    (p : ℕ) (ys : List Act) (rest : ℕ → List Act) → rest p ≡ ys → set_rest p ys rest ≡ rest
set_rest_same p ys rest h = fun_ext (λ q. elim (Bool-cases (q == p)) [
  | inl e ↦ rw (e, (==_iff q p).0 e) (sym h)
  | inr e ↦ rw e refl
])

-- Acts that thread p can carry out on its own lead from one state to the other.
pub Reach-acts :
    (p : ℕ) (xs ys : List Act) (s t : System) (rest : ℕ → List Act)
    → acts_of p xs s ≡ some t
    → rest p ≡ xs ++ ys
    → Reach (record s { rest = rest }) (record t { rest = set_rest p ys rest })
unfolding acts_of with_rest
Reach-acts p [] ys s t rest h e =
    subst (λ u. Reach (record s { rest = rest }) (record u { rest = set_rest p ys rest }))
      (some_inj.0 h)
      (subst (λ r. Reach (record s { rest = rest }) (record s { rest = r }))
        (sym (set_rest_same p ys rest e)) here)
Reach-acts p (a ∷ xs) ys s t rest h e = elim (Option-cases (act p a s)) [
  | inl stuck ↦
      let now : acts_of p (a ∷ xs) s ≡ none = rw (stuck, acts_of) refl in
      absurd (none-ne-some t (sym now ∙ h))
  | inr (u, done) ↦
      let now : acts_of p (a ∷ xs) s ≡ acts_of p xs u = rw (done, acts_of) refl in
      let first : act p a (record s { rest = rest }) ≡ some (record u { rest = rest }) =
        act-rest p a s rest ∙ ap (with_rest rest) done in
      let rest' = set_rest p (xs ++ ys) rest in
      let there : rest' p ≡ xs ++ ys = rw (==_refl p) refl in
      let later = Reach-acts p xs ys u t rest' (sym now ∙ h) there in
      Reach-append (next here (step p a (xs ++ ys) (record u { rest = rest }) e first)) (
        subst (λ r. Reach (record u { rest = rest' }) (record t { rest = r }))
          (set_rest_twice p (xs ++ ys) ys rest) later)
]

-- The stream behind a list of acts.
unfoldable pub written : List Act → Bytes → Bytes
written [] str = str
written (write more ∷ acts) str = written acts (str ++ more)
written (a ∷ acts) str = written acts str

module _ (show : Integer → Bytes) (show_pointer : ℕ → Bytes) (show_id : ℕ → Bytes)
    (calls : ℕ → List Call) (p q : ℕ) where
  -- Where thread p quits first, and q first sends to p, some order of their acts, with what they log to be
  -- logged, leads to where each waits for the other.
  pub quit-send_jams :
      (pevent : Bytes) (address : ℕ) (cs : List Call) (sent : Bytes) (has_thread : Bool)
      (str : Bytes) (ds : List Call)
      → p ≢ q
      → calls p ≡ quitting pevent address ∷ cs
      → calls q ≡ sending sent p has_thread str ∷ ds
      → (s : System) × Reach (at_start show show_pointer show_id true calls) s × IsJammed p q s
  unfolding at_start perform_all acts_of act is_open release has written
  quit-send_jams pevent address cs sent has_thread str ds d ep eq =
      let acts = λ (r : ℕ) (cs' : List Call). perform_all show show_pointer show_id true r cs' in
      let rest = λ (r : ℕ). acts r (calls r) in
      let ps = acts p (quitting pevent address ∷ cs) in
      let qs = acts q (sending sent p has_thread str ∷ ds) in
      let base : System = record { owner = none; held = []; stream = []; rest = rest } in
      let mid : System = record {
        owner = none;
        held = (internal p, p) ∷ [];
        stream = written (take 10 ps) [];
        rest = rest;
      } in
      let last : System = record {
        owner = some q;
        held = release q critical ((critical, q) ∷ (internal p, p) ∷ []);
        stream = written (take 7 qs) (written (take 10 ps) []);
        rest = rest;
      } in
      let first =
        Reach-acts p (take 10 ps) (drop 10 ps) base mid rest refl
          (ap (acts p) ep ∙ sym (take-append-drop 10 ps)) in
      let rest' = set_rest p (drop 10 ps) rest in
      let off : (q == p) ≡ false = ground (arith, ==_iff q p) in
      let off' : (p == q) ≡ false = ground (arith, ==_iff p q) in
      let at_q : rest' q ≡ qs = rw off (ap (acts q) eq) in
      let second =
        Reach-acts q (take 7 qs) (drop 7 qs) mid last rest' refl
          (at_q ∙ sym (take-append-drop 7 qs)) in
      (
        record last { rest = set_rest q (drop 7 qs) rest' },
        Reach-append first second,
        record {
          distinct = d;
          logging = refl;
          holding = rw (==_refl q, ==_refl p) refl;
          quitter = (drop 11 ps, rw (off', ==_refl p) refl);
          sender = (drop 8 qs, rw (==_refl q) refl);
        },
      )
