-- ===== src/Running/Dispatching.antt =====
-- The events of the application, dispatched next to threads that run: each but ApplicationClose, which
-- stops the threads, keeps the invariant, and the removal of a thread is always carried out.
use drumlin.Prelude.{
  ℕ, ◌+◌, ◌≡◌, refl, sym, ap, ◌∙◌, subst, ◌≢◌, ◌⊎◌, inl, inr, Bool, true, false, some, List, [],
  ◌∷◌, ◌++◌, arith, ◌==◌, if◌then◌else◌, ==_refl, Bool-cases, nat_eq, bytes_eq,
}
use drumlin.Event.{
  EventType, Event, in_range, make_event, thread_warning, thread_remove, application_close,
  application_threads_gone, application_shutdown, application_restart,
}
use drumlin.Threads.{Application, post, removed, remove_thread, delete_thread}
use drumlin.Threads.Removing.{gone, remove_thread_done}
use mathlib.Core.Option.{some_inj}
use drumlin.Dispatch.Posting.{Handled-cases}
use drumlin.Dispatch.{round, event, dispatch, Handled, handled, unsound, shutdown, quit, of_removed}
use drumlin.Running.{Pc, finished}
use drumlin.Running.Counting.{
  Inv, Same, Same-Inv, removal, removes, removes-append, times, times-append, times-none, ended,
  ended_cases,
}

Same-refl : (app : Application) → Same app app
Same-refl app = record { thread_at = refl; deleted = refl; removals = λ p. refl }

post-Same :
    (e : Event) (app : Application)
    → ((p : ℕ) → removal e.event_type e.ptr p ≡ 0)
    → Same app (post e app)
unfolding post
post-Same e app h = record {
  thread_at = refl;
  deleted = refl;
  removals = λ p. omega (arith, removes-append p app.queue e, h p);
}

shutdown-Same : (restarting : Bool) (app : Application) → Same app (shutdown restarting app)
unfolding shutdown make_event
shutdown-Same true app = post-Same _ app (λ p. refl)
shutdown-Same false app = post-Same _ app (λ p. refl)

-- What a dispatched event leaves: the invariant, and never a read of a deleted thread.
abbrev pub HandledInv : (ℕ → Pc) → Handled → Type 0
HandledInv pc unsound = true ≡ false
HandledInv pc (handled after taken) = Inv after pc

-- The deletion of a thread that has ended.
delete_thread-Inv :
    (p : ℕ) (app : Application) (pc : ℕ → Pc) (after : Application)
    → Inv app pc
    → after.deleted ≡ app.deleted ++ p ∷ []
    → after.thread_at ≡ app.thread_at
    → ((q : ℕ) → removes q app.queue ≡ (if p == q then 1 else 0) + removes q after.queue)
    → Inv after pc
delete_thread-Inv p app pc after inv gone_too same fewer = record {
  counted = λ q. rw gone_too (omega (arith, times-append q app.deleted p, fewer q, inv.counted q));
  resting = λ q. rw same (inv.resting q);
  quiet = λ q. rw same (inv.quiet q);
}

-- The removal of a thread is asked for once, by the thread itself at the end of run.
pub asked-ended :
    (e : Event) (rest : List Event) (app : Application) (pc : ℕ → Pc)
    → Inv app pc
    → app.queue ≡ e ∷ rest
    → e.event_type ≡ thread_remove
    → (pc e.ptr ≡ finished) × (times e.ptr app.deleted ≡ 0)
asked-ended e rest app pc inv q t =
    let one : removes e.ptr app.queue ≡ 1 + removes e.ptr rest = rw (q, t, ==_refl e.ptr) in
    elim (ended_cases (pc e.ptr)) [
      | inl f ↦ (f, omega (arith, inv.counted e.ptr, one, ap ended f))
      | inr z ↦ absurd (omega (arith, inv.counted e.ptr, one, z))
    ]

-- A removal that heads the queue deletes its thread, and keeps the invariant.
pub removal-done :
    (e : Event) (rest : List Event) (app : Application) (pc : ℕ → Pc)
    → Inv app pc
    → app.queue ≡ e ∷ rest
    → e.event_type ≡ thread_remove
    → let base = record app { queue = rest } in
      (remove_thread e.ptr base ≡ removed (delete_thread e.ptr base))
      × Inv (delete_thread e.ptr base) pc
unfolding make_event
removal-done e rest app pc inv q t =
    let base : Application = record app { queue = rest } in
    let (stands, fresh) = asked-ended e rest app pc inv q t in
    let (done, (gone_too, _, told), same) =
      remove_thread_done e.ptr base (times-none e.ptr app.deleted fresh)
        (inv.resting e.ptr stands) in
    let first : (p : ℕ) → removes p app.queue ≡ (if e.ptr == p then 1 else 0) + removes p rest =
      λ p. rw (q, t) in
    (
      done,
      delete_thread-Inv e.ptr app pc (delete_thread e.ptr base) inv gone_too same (λ p. elim told [
        | inl (_, g) ↦ rw g (omega (arith, first p, removes-append p rest gone))
        | inr (_, g) ↦ rw g (first p)
      ]),
    )

-- An event that asks for no removal leaves the removals in the queue as they were.
dropped-Inv :
    (e : Event) (rest : List Event) (app : Application) (pc : ℕ → Pc)
    → Inv app pc
    → app.queue ≡ e ∷ rest
    → ((p : ℕ) → removal e.event_type e.ptr p ≡ 0)
    → Inv (record app { queue = rest }) pc
dropped-Inv e rest app pc inv q h =
    Same-Inv app (record app { queue = rest }) pc
      (record { thread_at = refl; deleted = refl; removals = λ p. rw q (omega (arith, h p)) }) inv

pub apart : true ≢ false
apart h = cc

kind_cases :
    (t : EventType)
    → (t ≡ thread_remove) ⊎ ((t ≢ thread_remove) × ((ptr p : ℕ) → removal t ptr p ≡ 0))
kind_cases thread_remove = inl refl
kind_cases _ = inr (λ h. cc, λ ptr p. refl)

module _ (types : List ℕ) (join : ℕ → Application → Application) where
  -- The events that are neither a removal nor ApplicationClose.
  dispatch-Inv :
      (t : EventType) (ptr : ℕ) (app : Application) (pc : ℕ → Pc)
      → Inv app pc
      → t ≢ application_close
      → t ≢ thread_remove
      → HandledInv pc (dispatch types join t ptr app)
  unfolding dispatch quit
  dispatch-Inv thread_warning ptr app pc inv _ _ = inv
  dispatch-Inv thread_remove ptr app pc inv _ h = absurd (h refl)
  dispatch-Inv application_close ptr app pc inv h _ = absurd (h refl)
  dispatch-Inv application_threads_gone ptr app pc inv _ _ =
      Same-Inv app _ pc (shutdown-Same _ app) inv
  dispatch-Inv application_shutdown ptr app pc inv _ _ =
      Same-Inv app _ pc (record { thread_at = refl; deleted = refl; removals = λ p. refl }) inv
  dispatch-Inv application_restart ptr app pc inv _ _ = inv
  dispatch-Inv _ ptr app pc inv _ _ = inv

  event-Inv :
      (e : Event) (rest : List Event) (app : Application) (pc : ℕ → Pc)
      → Inv app pc
      → app.queue ≡ e ∷ rest
      → e.event_type ≢ application_close
      → HandledInv pc (event types join e (record app { queue = rest }))
  unfolding event dispatch of_removed in_range
  event-Inv e rest app pc inv q h = elim (kind_cases e.event_type) [
    | inl t ↦ let (done, keeps) = removal-done e rest app pc inv q t in rw (t, done) keeps
    | inr (ne, none_asked) ↦
        let base = dropped-Inv e rest app pc inv q (λ p. none_asked e.ptr p) in
        elim (Bool-cases (in_range e.event_type)) [
          | inl r ↦ rw (r, event) (dispatch-Inv e.event_type e.ptr _ pc base h ne)
          | inr r ↦ rw (r, event) base
        ]
  ]

  -- No round reads a deleted thread.
  pub round-total :
      (e : Event) (rest : List Event) (app : Application) (pc : ℕ → Pc)
      → Inv app pc
      → app.queue ≡ e ∷ rest
      → e.event_type ≢ application_close
      → (after : Application) × (round types join app.queue app ≡ some after) × Inv after pc
  unfolding round
  round-total e rest app pc inv q h =
      elim (Handled-cases (event types join e (record app { queue = rest }))) [
        | inl u ↦ absurd (apart (subst (HandledInv pc) u (event-Inv e rest app pc inv q h)))
        | inr (after, taken, f) ↦
            (after, rw (q, f, round), subst (HandledInv pc) f (event-Inv e rest app pc inv q h))
      ]

  -- A round of exec on a queue that holds an event.
  pub round-Inv :
      (e : Event) (rest : List Event) (app after : Application) (pc : ℕ → Pc)
      → Inv app pc
      → app.queue ≡ e ∷ rest
      → e.event_type ≢ application_close
      → round types join app.queue app ≡ some after
      → Inv after pc
  round-Inv e rest app after pc inv q h ran =
      let (there, got, keeps) = round-total e rest app pc inv q h in
      subst (λ a. Inv a pc) (some_inj.0 (sym got ∙ ran)) keeps
