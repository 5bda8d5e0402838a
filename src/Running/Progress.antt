-- ===== src/Running/Progress.antt =====
-- A removal that is queued comes to pass, as the application goes through its events.
use drumlin.Prelude.{
  ℕ, ◌≡◌, refl, sym, ap, ◌∙◌, subst, ◌≢◌, inl, inr, Bool, true, false, some, List, [], ◌∷◌, ◌++◌,
  append_assoc, arith, ◌==◌, ==_refl, some_of, All, nat_eq, bytes_eq,
}
use mathlib.Core.Option.{some_inj, none-ne-some}
use drumlin.Event.{
  EventType, Event, in_range, thread_shutdown, thread_remove, application_close,
  application_shutdown,
}
use drumlin.Threads.{Application, delete_thread}
use drumlin.Threads.Removing.{remove_thread_done}
use drumlin.Dispatch.{handled, round, event, dispatch as dispatch_event, of_removed}
use drumlin.Dispatch.Posting.{IsPosting, Posts, Handled-cases, event-Posts}
use drumlin.Dispatch.Lasting.{Lasts, event-Lasts}
use drumlin.Running.{Pc, System, Step, Reach, here, next, dispatch}
use drumlin.Running.Counting.{Inv, times-none}
use drumlin.Running.Dispatching.{round-total, asked-ended}
use drumlin.Running.Safety.{IsInitial, Reach-invariant}

some_of-snoc : (p : ℕ) (ps : List ℕ) → some_of (λ q. q == p) (ps ++ p ∷ []) ≡ true
some_of-snoc p [] = rw (==_refl p)
some_of-snoc p (q ∷ ps) = ground (arith, some_of-snoc p ps)

remove_close : thread_remove ≢ application_close
remove_close h = cc

module _ (types : List ℕ) (join : ℕ → Application → Application) (takes : ℕ → Event → Bool)
    (ok : EventType → Bool) (joins : (p : ℕ) (app : Application) → IsPosting app (join p app)) where
  Reach-cons :
      {s t u : System}
      → Step types join takes ok s t
      → Reach types join takes ok t u
      → Reach types join takes ok s u
  Reach-cons st here = next here st
  Reach-cons st (next r last) = next (Reach-cons st r) last

  -- A round leaves the rest of the queue in front, as it was.
  round-rest :
      (e : Event) (queue : List Event) (app after : Application)
      → app.queue ≡ e ∷ queue
      → round types join app.queue app ≡ some after
      → (more : List Event) × (after.queue ≡ queue ++ more)
  unfolding round
  round-rest e queue app after q ran =
      let base : Application = record app { queue = queue } in
      let posts = event-Posts types join joins e base in
      elim (Handled-cases (event types join e base)) [
        | inl u ↦
            absurd (
              none-ne-some after (sym (ap (λ es. round types join es app) q ∙ rw (u, round)) ∙ ran))
        | inr (left, taken, f) ↦
            let same : left ≡ after =
              some_inj.0 (sym (ap (λ es. round types join es app) q ∙ rw (f, round)) ∙ ran) in
            subst (IsPosting base) same (subst (Posts base) f posts)
      ]

  -- A round on an event that does not end the loop.
  round-terminated :
      (e : Event) (queue : List Event) (app after : Application)
      → app.queue ≡ e ∷ queue
      → e.event_type ≢ application_close
      → e.event_type ≢ application_shutdown
      → round types join app.queue app ≡ some after
      → after.terminated ≡ app.terminated
  unfolding round
  round-terminated e queue app after q ne ns ran =
      let base : Application = record app { queue = queue } in
      elim (Handled-cases (event types join e base)) [
        | inl u ↦
            absurd (
              none-ne-some after (sym (ap (λ es. round types join es app) q ∙ rw (u, round)) ∙ ran))
        | inr (left, taken, f) ↦
            let same : left ≡ after =
              some_inj.0 (sym (ap (λ es. round types join es app) q ∙ rw (f, round)) ∙ ran) in
            ap (λ (a : Application). a.terminated) (sym same)
            ∙ subst (Lasts base) f (event-Lasts types join e base ne ns)
      ]

  -- The round that carries a removal out.
  round-removal :
      (e : Event) (queue : List Event) (app : Application) (pc : ℕ → Pc)
      → Inv app pc
      → app.queue ≡ e ∷ queue
      → e.event_type ≡ thread_remove
      → let base = record app { queue = queue } in
        (round types join app.queue app ≡ some (delete_thread e.ptr base))
        × (some_of (λ q. q == e.ptr) (delete_thread e.ptr base).deleted ≡ true)
  unfolding round event dispatch_event of_removed in_range
  round-removal e queue app pc inv q t =
      let base : Application = record app { queue = queue } in
      let (stands, fresh) = asked-ended e queue app pc inv q t in
      let (done, (deleted, _, _), _) =
        remove_thread_done e.ptr base (times-none e.ptr app.deleted fresh)
          (inv.resting e.ptr stands) in
      let taken : event types join e base ≡ handled (delete_thread e.ptr base) true =
        rw (t, done) in
      (
        ap (λ es. round types join es app) q ∙ rw (taken, round),
        rw deleted (some_of-snoc e.ptr app.deleted),
      )

  progress :
      (es rest : List Event) (e : Event) (s : System)
      → Inv s.app s.pc
      → s.app.terminated ≡ false
      → s.app.queue ≡ es ++ e ∷ rest
      → e.event_type ≡ thread_remove
      → All (λ d. (d.event_type ≢ application_close) × (d.event_type ≢ application_shutdown)) es
      → (u : System) × Reach types join takes ok s u
        × (some_of (λ q. q == e.ptr) u.app.deleted ≡ true)
        × (u.pc ≡ s.pc)
  progress [] rest e s inv alive q t h =
      let base : Application = record s.app { queue = rest } in
      let (ran, gone) = round-removal e rest s.app s.pc inv q t in
      let ne : e.event_type ≢ application_close = λ c. remove_close (sym t ∙ c) in
      (
        record s { app = delete_thread e.ptr base },
        next here (dispatch e rest (delete_thread e.ptr base) alive q ne ran),
        gone,
        refl,
      )
  progress (d ∷ es) rest e s inv alive q t ((ne, ns), h) =
      let (after, ran, keeps) = round-total types join d (es ++ e ∷ rest) s.app s.pc inv q ne in
      let (more, grown) = round-rest d (es ++ e ∷ rest) s.app after q ran in
      let lasts : after.terminated ≡ false =
        round-terminated d (es ++ e ∷ rest) s.app after q ne ns ran ∙ alive in
      let later : System = record s { app = after } in
      let (u, reach, gone, same) =
        progress es (rest ++ more) e later keeps lasts (grown ∙ append_assoc es (e ∷ rest) more) t
          h in
      (u, Reach-cons (dispatch d (es ++ e ∷ rest) after alive q ne ran) reach, gone, same)

  -- In every state that is reached from the start without a ThreadShutdown and an ApplicationClose, and where
  -- exec was not told to end: a ThreadRemove that is queued behind events none of which is an
  -- ApplicationClose or an ApplicationShutdown is carried out when the application goes on through its queue, and the threads need not move for it. Waiting for a
  -- thread is to do nothing to the application but post events.
  pub removal_completes :
      (calm : ok thread_shutdown ≡ false) (s t : System) (es rest : List Event) (e : Event)
      → IsInitial s
      → Reach types join takes ok s t
      → t.app.terminated ≡ false
      → t.app.queue ≡ es ++ e ∷ rest
      → e.event_type ≡ thread_remove
      → All (λ d. (d.event_type ≢ application_close) × (d.event_type ≢ application_shutdown)) es
      → (u : System) × Reach types join takes ok t u
        × (some_of (λ q. q == e.ptr) u.app.deleted ≡ true)
        × (u.pc ≡ t.pc)
  removal_completes calm s t es rest e h r alive q k n =
      progress es rest e t (Reach-invariant types join takes ok calm s t h r) alive q k n
