-- ===== src/Logging/Whole.antt =====
-- logger.cpp and drumlin.h: what threads that log next to one another make of the stream.
use drumlin.Prelude.{
  ℕ, ◌≡◌, refl, sym, ap, ◌∙◌, subst, inl, inr, Bool, true, false, Option, none, some, List, [], ◌∷◌,
  ◌++◌, append-nil, append_assoc, arith, ◌==◌, if◌then◌else◌, ==_iff, ==_refl, Bool-cases, Bytes,
  nat_eq, bytes_eq,
}
use drumlin.Logging.{Act, System, set_rest}
use drumlin.Logging.Texts.{finish, lines, Logs}

-- The lines of a thread, among those of all threads.
unfoldable pub of_thread : ℕ → List (ℕ × Bytes) → List Bytes
of_thread p [] = []
of_thread p ((q, str) ∷ done) = let rest = of_thread p done in if q == p then str ∷ rest else rest

unfoldable pub joined : List (ℕ × Bytes) → Bytes
joined [] = []
joined ((p, str) ∷ done) = str ++ joined done

unfoldable pub holds : ℕ → Option ℕ → Bool
holds p none = false
holds p (some q) = q == p

-- The lines that a thread has not written to their ends, where `part` of the first is written.
unfoldable pub left : Bool → Bytes → List Act → List Bytes
left true part acts = (part ++ finish acts) ∷ lines true acts
left false part acts = lines false acts

-- Where no thread has the mutex, no line is begun.
unfoldable pub IsPart : Option ℕ → Bytes → Type 0
IsPart none part = part ≡ []
IsPart (some p) part = Unit

-- Of the lines `all p` of each thread p, some are done, and one may have been begun.
pub record IsWhole (all : ℕ → List Bytes) (s : System) : Type 0 where
  pub done : List (ℕ × Bytes)
  pub part : Bytes
  pub written : s.stream ≡ joined done ++ part
  pub begun : IsPart s.owner part
  pub logs : (p : ℕ) → Logs (holds p s.owner) (s.rest p)
  pub kept : (p : ℕ) → of_thread p done ++ left (holds p s.owner) part (s.rest p) ≡ all p

pub of_thread-append :
    (p : ℕ) (xs ys : List (ℕ × Bytes)) → of_thread p (xs ++ ys) ≡ of_thread p xs ++ of_thread p ys
unfolding of_thread
of_thread-append p [] ys = refl
of_thread-append p ((q, str) ∷ xs) ys = ground (arith, of_thread-append p xs ys)

pub joined-append : (xs ys : List (ℕ × Bytes)) → joined (xs ++ ys) ≡ joined xs ++ joined ys
unfolding joined
joined-append [] ys = refl
joined-append ((q, str) ∷ xs) ys =
    ap (λ t. str ++ t) (joined-append xs ys) ∙ sym (append_assoc str (joined xs) (joined ys))

-- A step of thread p, where it leaves the others what they had.
pub IsWhole-move :
    (all : ℕ → List Bytes) (s after : System) (p : ℕ) (acts : List Act) (w : IsWhole all s)
    (done : List (ℕ × Bytes)) (part : Bytes)
    → after.stream ≡ joined done ++ part
    → IsPart after.owner part
    → Logs (holds p after.owner) acts
    → of_thread p done ++ left (holds p after.owner) part acts ≡ all p
    → ((q : ℕ)
        → (q == p) ≡ false
        → (holds q after.owner ≡ holds q s.owner)
          × (of_thread q done ++ left (holds q after.owner) part (s.rest q)
              ≡ of_thread q w.done ++ left (holds q s.owner) w.part (s.rest q)))
    → IsWhole all (record after { rest = set_rest p acts s.rest })
IsWhole-move all s after p acts w done part written begun logs kept others = record {
  done = done;
  part = part;
  written = written;
  begun = begun;
  logs = λ q. elim (Bool-cases (q == p)) [
    | inl e ↦ rw (e, (==_iff q p).0 e) logs
    | inr e ↦ rw (e, (others q e).0) (w.logs q)
  ];
  kept = λ q. elim (Bool-cases (q == p)) [
    | inl e ↦ rw (e, (==_iff q p).0 e) kept
    | inr e ↦ rw e ((others q e).1 ∙ w.kept q)
  ];
}

pub holds-some : (p : ℕ) (o : Option ℕ) → holds p o ≡ true → o ≡ some p
unfolding holds
holds-some p none h = cc
holds-some p (some q) h = ap some ((==_iff q p).0 h)

pub holds_other : (p q : ℕ) → (q == p) ≡ false → holds q (some p) ≡ false
unfolding holds
holds_other p q h = ground arith

-- What stands for thread p, with the owner and the acts put in.
pub IsWhole-at :
    (all : ℕ → List Bytes) (s : System) (p : ℕ) (w : IsWhole all s) (o : Option ℕ) (acts : List Act)
    → s.owner ≡ o
    → s.rest p ≡ acts
    → IsPart o w.part
      × Logs (holds p o) acts
      × (of_thread p w.done ++ left (holds p o) w.part acts ≡ all p)
IsWhole-at all s p w o acts eo e = (
  subst (λ o'. IsPart o' w.part) eo w.begun,
  subst (λ o'. Logs (holds p o') acts) eo (subst (λ x. Logs (holds p s.owner) x) e (w.logs p)),
  subst (λ o'. of_thread p w.done ++ left (holds p o') w.part acts ≡ all p) eo
      (subst (λ x. of_thread p w.done ++ left (holds p s.owner) w.part x ≡ all p) e (w.kept p)),
)

-- The same where the thread has the mutex.
pub IsWhole-own :
    (all : ℕ → List Bytes) (s : System) (p : ℕ) (w : IsWhole all s) (acts : List Act)
    → s.owner ≡ some p
    → s.rest p ≡ acts
    → Logs true acts × (of_thread p w.done ++ (w.part ++ finish acts) ∷ lines true acts ≡ all p)
unfolding holds left
IsWhole-own all s p w acts eo e =
    let (_, logs, kept) = IsWhole-at all s p w (some p) acts eo e in
    (
      subst (λ b. Logs b acts) (==_refl p) logs,
      subst (λ b. of_thread p w.done ++ left b w.part acts ≡ all p) (==_refl p) kept,
    )

pub of_thread_own :
    (p : ℕ) (done : List (ℕ × Bytes)) (str : Bytes)
    → of_thread p (done ++ (p, str) ∷ []) ≡ of_thread p done ++ str ∷ []
unfolding of_thread
of_thread_own p done str =
    let one : of_thread p ((p, str) ∷ []) ≡ str ∷ [] = rw (==_refl p) refl in
    of_thread-append p done ((p, str) ∷ []) ∙ ap (λ t. of_thread p done ++ t) one

pub of_thread_other :
    (p q : ℕ) (done : List (ℕ × Bytes)) (str : Bytes)
    → (q == p) ≡ false
    → of_thread q (done ++ (p, str) ∷ []) ≡ of_thread q done
unfolding of_thread
of_thread_other p q done str d =
    let d' : (p == q) ≡ false = ground arith in
    let one : of_thread q ((p, str) ∷ []) ≡ [] = rw d' refl in
    of_thread-append q done ((p, str) ∷ [])
    ∙ ap (λ t. of_thread q done ++ t) one
    ∙ append-nil (of_thread q done)
