-- ===== src/Dispatch/Shutdown.antt =====
-- application.cpp, exec: an event that asks for the shutdown ends the loop.
use drumlin.Prelude.{
  ℕ, zero, suc, ◌+◌, ◌≤◌, ◌≡◌, refl, ap, ◌∙◌, subst, ◌⊎◌, inl, inr, true, false, none, some, List,
  [], ◌∷◌, ◌++◌, append_assoc, arith, Bool-cases, length, nat_eq, bytes_eq,
}
use drumlin.Event.{Event, in_range, application_shutdown}
use drumlin.Threads.{Application}
use drumlin.Dispatch.{
  quit, handled, Executed, broken, running, returned, dispatch, event, round, exec,
}
use drumlin.Dispatch.Posting.{IsPosting, Posts, Handled-cases, event-Posts}

module _ (types : List ℕ) (join : ℕ → Application → Application)
    (joins : (p : ℕ) (app : Application) → IsPosting app (join p app)) where
  -- What a state of exec says of its end.
  abbrev Ended : Executed → Type 0
  Ended broken = Unit {0}
  Ended (running app) = ⊥
  Ended (returned app) = app.terminated ≡ true

  exec-Ended' :
      (fuel : ℕ) (app : Application)
      → app.terminated ≡ true
      → Ended (exec types join (suc fuel) app)
  unfolding exec
  exec-Ended' fuel app e = rw e refl

  exec_step :
      (fuel : ℕ) (app after : Application)
      → app.terminated ≡ false
      → round types join app.queue app ≡ some after
      → exec types join (suc fuel) app ≡ exec types join fuel after
  unfolding exec
  exec_step fuel app after e r = rw (exec, r, e)

  exec_broken :
      (fuel : ℕ) (app : Application)
      → app.terminated ≡ false
      → round types join app.queue app ≡ none
      → exec types join (suc fuel) app ≡ broken
  unfolding exec
  exec_broken fuel app e r = rw (exec, r, e)

  event_shutdown :
      (e : Event) (app : Application)
      → e.event_type ≡ application_shutdown
      → event types join e app ≡ handled (quit app) true
  unfolding event dispatch in_range
  event_shutdown e app t = rw t

  -- The application without the first event of its queue.
  abbrev pulled : List Event → Application → Application
  pulled queue app = record app { queue = queue }

  exec-Ended :
      (es rest : List Event) (pevent : Event) (fuel : ℕ) (app : Application)
      → app.queue ≡ es ++ pevent ∷ rest
      → pevent.event_type ≡ application_shutdown
      → length es + 2 ≤ fuel
      → Ended (exec types join fuel app)
  unfolding round quit
  exec-Ended es rest pevent zero app q t f = absurd (omega arith)
  exec-Ended [] rest pevent (suc zero) app q t f = absurd (omega arith)
  exec-Ended [] rest pevent (suc (suc fuel)) app q t f = elim (Bool-cases app.terminated) [
    | inl e ↦ exec-Ended' (suc fuel) app e
    | inr e ↦
        let first : round types join app.queue app ≡ some (quit (pulled rest app)) =
          ap (λ qs. round types join qs app) q
          ∙ rw (event_shutdown pevent (pulled rest app) t, round) in
        rw (exec_step (suc fuel) app (quit (pulled rest app)) e first)
          (exec-Ended' fuel (quit (pulled rest app)) refl)
  ]
  exec-Ended (x ∷ es) rest pevent (suc fuel) app q t f = elim (Bool-cases app.terminated) [
    | inl e ↦ exec-Ended' fuel app e
    | inr e ↦ elim (Handled-cases (event types join x (pulled (es ++ pevent ∷ rest) app))) [
      | inl h ↦
          let first : round types join app.queue app ≡ none =
            ap (λ qs. round types join qs app) q ∙ rw (h, round) in
          rw (exec_broken fuel app e first) tt
      | inr (after, taken, h) ↦
          let (more, grown) =
            subst (Posts (pulled (es ++ pevent ∷ rest) app)) h
              (event-Posts types join joins x (pulled (es ++ pevent ∷ rest) app)) in
          let first : round types join app.queue app ≡ some after =
            ap (λ qs. round types join qs app) q ∙ rw (h, round) in
          rw (exec_step fuel app after e first) (
            exec-Ended es (rest ++ more) pevent fuel after
              (grown ∙ append_assoc es (pevent ∷ rest) more) t (omega (arith, f)))
    ]
  ]

  Ended-cases :
      (x : Executed)
      → Ended x
      → (x ≡ broken) ⊎ ((after : Application) × (x ≡ returned after) × (after.terminated ≡ true))
  Ended-cases broken h = inl refl
  Ended-cases (running app) h = elim h [ ]
  Ended-cases (returned app) h = inr (app, refl, h)

  -- A shutdown event in the queue ends exec: when `join` only posts events, exec has returned after
  -- one round for each event before it and two more, with the application terminated,
  -- unless it has read a deleted thread by then.
  pub exec_returns :
      (es rest : List Event) (pevent : Event) (fuel : ℕ) (app : Application)
      → app.queue ≡ es ++ pevent ∷ rest
      → pevent.event_type ≡ application_shutdown
      → length es + 2 ≤ fuel
      → (exec types join fuel app ≡ broken)
        ⊎ ((after : Application) × (exec types join fuel app ≡ returned after)
            × (after.terminated ≡ true))
  exec_returns es rest pevent fuel app q t f =
      Ended-cases (exec types join fuel app) (exec-Ended es rest pevent fuel app q t f)
