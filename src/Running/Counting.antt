-- ===== src/Running/Counting.antt =====
-- The invariant of the steps, as long as no thread is sent a ThreadShutdown: each thread has at most
-- one ThreadRemove, queued or done, and it has it once it is finished.
use drumlin.Prelude.{
  ℕ, ◌+◌, ◌≤◌, ◌≡◌, refl, sym, ap, ◌∙◌, ◌≢◌, ◌⊎◌, inl, inr, true, false, List, [], ◌∷◌, ◌++◌, arith,
  ◌==◌, if◌then◌else◌, ==_iff, Bool-cases, some_of, All, codes, before, nat_eq, bytes_eq,
}
use drumlin.Event.{EventType, Event, make_event, thread_shutdown, thread_remove}
use drumlin.Threads.{Thread, Application, set_thread, quit_thread, post}
use drumlin.Running.{Pc, idle, opening, looping, pulling, working, closing, finished}

-- Whether an event asks for the removal of a thread, as a number.
abbrev pub removal : EventType → ℕ → ℕ → ℕ
removal thread_remove ptr p = if ptr == p then 1 else 0
removal _ ptr p = 0

-- The removals of a thread that stand in a queue.
abbrev pub removes : ℕ → List Event → ℕ
removes p [] = 0
removes p (e ∷ es) = removal e.event_type e.ptr p + removes p es

-- How often a thread was deleted.
abbrev pub times : ℕ → List ℕ → ℕ
times p [] = 0
times p (q ∷ qs) = (if q == p then 1 else 0) + times p qs

abbrev pub ended : Pc → ℕ
ended finished = 1
ended _ = 0

abbrev pub IsQuiet : Event → Type 0
IsQuiet e = e.event_type ≢ thread_shutdown

pub record Inv (app : Application) (pc : ℕ → Pc) : Type 0 where
  pub counted : (p : ℕ) → removes p app.queue + times p app.deleted ≡ ended (pc p)
  pub resting : (p : ℕ) → pc p ≡ finished → (app.thread_at p).ready ≡ false
  pub quiet : (p : ℕ) → All IsQuiet (app.thread_at p).queue

pub removes-append :
    (p : ℕ) (es : List Event) (e : Event)
    → removes p (es ++ e ∷ []) ≡ removes p es + removal e.event_type e.ptr p
removes-append p [] e = omega arith
removes-append p (d ∷ es) e = omega (arith, removes-append p es e)

pub times-append :
    (p : ℕ) (qs : List ℕ) (q : ℕ) → times p (qs ++ q ∷ []) ≡ times p qs + (if q == p then 1 else 0)
times-append p [] q = omega arith
times-append p (r ∷ qs) q = omega (arith, times-append p qs q)

pub times-none : (p : ℕ) (qs : List ℕ) → times p qs ≡ 0 → some_of (λ q. q == p) qs ≡ false
times-none p [] h = refl
times-none p (q ∷ qs) h = ground (arith, h, times-none p qs)

pub times-some : (p : ℕ) (qs : List ℕ) → some_of (λ q. q == p) qs ≡ true → 1 ≤ times p qs
times-some p [] h = cc
times-some p (q ∷ qs) h = ground (arith, h, times-some p qs)

pub ended_cases : (c : Pc) → (c ≡ finished) ⊎ (ended c ≡ 0)
ended_cases idle = inr refl
ended_cases opening = inr refl
ended_cases looping = inr refl
ended_cases pulling = inr refl
ended_cases working = inr refl
ended_cases closing = inr refl
ended_cases finished = inl refl

-- A change of one thread that neither ends it nor, once it has ended, starts it again.
pub set_thread-Inv :
    (p : ℕ) (t : Thread) (app : Application) (pc pc' : ℕ → Pc)
    → Inv app pc
    → ((q : ℕ) → (q == p) ≡ false → pc' q ≡ pc q)
    → ended (pc' p) ≡ ended (pc p)
    → (pc' p ≡ finished → t.ready ≡ false)
    → All IsQuiet t.queue
    → Inv (set_thread p t app) pc'
unfolding set_thread
set_thread-Inv p t app pc pc' inv others same rests calm = record {
  counted = λ q. elim (Bool-cases (q == p)) [
    | inl e ↦
        let h = (==_iff q p).0 e in
        inv.counted q ∙ ap (λ x. ended (pc x)) h ∙ sym same ∙ ap (λ x. ended (pc' x)) (sym h)
    | inr e ↦ inv.counted q ∙ ap ended (sym (others q e))
  ];
  resting = λ q stands. elim (Bool-cases (q == p)) [
    | inl e ↦ rw e (rests (ap pc' (sym ((==_iff q p).0 e)) ∙ stands))
    | inr e ↦ rw e (inv.resting q (sym (others q e) ∙ stands))
  ];
  quiet = λ q. elim (Bool-cases (q == p)) [ inl e ↦ rw e calm | inr e ↦ rw e (inv.quiet q) ];
}

-- A change of the application that leaves the threads, what is deleted and the removals as they are.
pub record Same (app after : Application) : Type 0 where
  pub thread_at : after.thread_at ≡ app.thread_at
  pub deleted : after.deleted ≡ app.deleted
  pub removals : (p : ℕ) → removes p after.queue ≡ removes p app.queue

pub Same-Inv : (app after : Application) (pc : ℕ → Pc) → Same app after → Inv app pc → Inv after pc
Same-Inv app after pc same inv = record {
  counted = λ p. rw (same.removals p, same.deleted) (inv.counted p);
  resting = λ p. rw same.thread_at (inv.resting p);
  quiet = λ p. rw same.thread_at (inv.quiet p);
}

-- The removal that a thread asks for at the end of run.
pub quit_thread-Inv :
    (p : ℕ) (app : Application) (pc pc' : ℕ → Pc)
    → Inv app pc
    → ((q : ℕ) → (q == p) ≡ false → pc' q ≡ pc q)
    → ended (pc p) ≡ 0
    → pc' p ≡ finished
    → (app.thread_at p).ready ≡ false
    → Inv (quit_thread p app) pc'
unfolding quit_thread post make_event
quit_thread-Inv p app pc pc' inv others before stands rests = record {
  counted = λ q. elim (Bool-cases (p == q)) [
    | inl e ↦
        let h = (==_iff p q).0 e in
        let ends : ended (pc' q) ≡ 1 = ap (λ x. ended (pc' x)) (sym h) ∙ ap ended stands in
        let was : ended (pc q) ≡ 0 = ap (λ x. ended (pc x)) (sym h) ∙ before in
        rw (removes-append q app.queue (make_event thread_remove (codes "removeThread") p), e, ends)
          (omega (arith, inv.counted q, was))
    | inr e ↦
        let ne : (q == p) ≡ false = ground (arith, e) in
        rw
          (
            removes-append q app.queue (make_event thread_remove (codes "removeThread") p),
            e,
            others q ne,
          )
          (omega (arith, inv.counted q))
  ];
  resting = λ q g. elim (Bool-cases (q == p)) [
    | inl e ↦ ap (λ x. (app.thread_at x).ready) ((==_iff q p).0 e) ∙ rests
    | inr e ↦ inv.resting q (sym (others q e) ∙ g)
  ];
  quiet = inv.quiet;
}
