-- ===== src/Dispatch/Posting.antt =====
-- application.cpp, event: what the dispatch of an event does to the queue.
use drumlin.Prelude.{
  ℕ, ◌≡◌, refl, sym, ap, ◌∙◌, subst, ◌⊎◌, inl, inr, Bool, true, false, Option, none, some, List, [],
  ◌∷◌, ◌++◌, append-nil, append_assoc, ◌==◌, Bool-cases, Option-cases, some_of, nat_eq, bytes_eq,
}
use drumlin.Event.{
  EventType, Event, in_range, thread_warning, thread_remove, application_close,
  application_threads_gone, application_shutdown, application_restart,
}
use drumlin.Threads.{Application, remove_thread, post, set_thread, terminate, quit_thread}
use drumlin.Threads.Removing.{remove_thread_cases}
use drumlin.Dispatch.{
  quit, shutdown, terminate_all, chosen, Handled, unsound, handled, wait_all, stop_type, stop_types,
  stop, of_removed, of_stopped, dispatch, event,
}

-- A change of the application that only adds to the end of the queue, if it touches it.
abbrev pub IsPosting : Application → Application → Type 0
IsPosting app after = (more : List Event) × (after.queue ≡ app.queue ++ more)

IsPosting-refl : (app : Application) → IsPosting app app
IsPosting-refl app = ([], sym (append-nil app.queue))

IsPosting-trans : (a b c : Application) → IsPosting a b → IsPosting b c → IsPosting a c
IsPosting-trans a b c (xs, e) (ys, g) =
    (xs ++ ys, g ∙ ap (λ q. q ++ ys) e ∙ append_assoc a.queue xs ys)

post-IsPosting : (e : Event) (app : Application) → IsPosting app (post e app)
unfolding post
post-IsPosting e app = (e ∷ [], refl)

shutdown-IsPosting :
    (restarting : Bool) (app : Application) → IsPosting app (shutdown restarting app)
unfolding shutdown
shutdown-IsPosting true app = post-IsPosting _ app
shutdown-IsPosting false app = post-IsPosting _ app

terminate_all-IsPosting : (ps : List ℕ) (app : Application) → IsPosting app (terminate_all ps app)
unfolding terminate_all set_thread
terminate_all-IsPosting [] app = IsPosting-refl app
terminate_all-IsPosting (p ∷ ps) app =
    terminate_all-IsPosting ps (set_thread p (terminate (app.thread_at p)) app)

abbrev pub Posts : Application → Handled → Type 0
Posts app unsound = Unit {0}
Posts app (handled after taken) = IsPosting app after

abbrev PostsOption : Application → Option Application → Type 0
PostsOption app none = Unit {0}
PostsOption app (some after) = IsPosting app after

pub Handled-cases :
    (h : Handled)
    → (h ≡ unsound) ⊎ ((after : Application) × (taken : Bool) × (h ≡ handled after taken))
Handled-cases unsound = inl refl
Handled-cases (handled after taken) = inr (after, taken, refl)

later :
    (app next : Application) (o : Option Application)
    → IsPosting app next
    → PostsOption next o
    → PostsOption app o
later app next none h k = tt
later app next (some after) h k = IsPosting-trans app next after h k

module _ (types : List ℕ) (join : ℕ → Application → Application)
    (joins : (p : ℕ) (app : Application) → IsPosting app (join p app)) where
  wait_all-IsPosting :
      (ps : List ℕ) (app : Application) → IsPosting app (wait_all types join ps app)
  unfolding wait_all quit_thread
  wait_all-IsPosting [] app = IsPosting-refl app
  wait_all-IsPosting (p ∷ ps) app = elim (Bool-cases (app.thread_at p).ready) [
    | inl e ↦
        rw (e, wait_all)
          (IsPosting-trans app (join p app) (wait_all types join ps (join p app)) (joins p app)
            (wait_all-IsPosting ps (join p app)))
    | inr e ↦
        rw (e, wait_all)
          (IsPosting-trans app (quit_thread p app) (wait_all types join ps (quit_thread p app))
            (post-IsPosting _ app) (wait_all-IsPosting ps (quit_thread p app)))
  ]

  ended-IsPosting :
      (ps : List ℕ) (app : Application)
      → IsPosting app (wait_all types join ps (terminate_all ps app))
  ended-IsPosting ps app =
      IsPosting-trans app (terminate_all ps app) (wait_all types join ps (terminate_all ps app))
        (terminate_all-IsPosting ps app) (wait_all-IsPosting ps (terminate_all ps app))

  stop_type-Posts : (t : ℕ) (app : Application) → PostsOption app (stop_type types join t app)
  unfolding stop_type
  stop_type-Posts t app =
      elim (Bool-cases (some_of (λ p. some_of (λ q. q == p) app.deleted) app.threads)) [
        | inl e ↦ rw e tt
        | inr e ↦ rw e (ended-IsPosting (chosen t app) app)
      ]

  stop_types-Posts :
      (ts : List ℕ) (app : Application) → PostsOption app (stop_types types join ts app)
  unfolding stop_types
  stop_types-Posts [] app = IsPosting-refl app
  stop_types-Posts (t ∷ ts) app = elim (Option-cases (stop_type types join t app)) [
    | inl e ↦ rw (e, stop_types) tt
    | inr (next, e) ↦
        rw (e, stop_types)
          (later app next (stop_types types join ts next)
            (subst (PostsOption app) e (stop_type-Posts t app)) (stop_types-Posts ts next))
  ]

  of_removed-Posts :
      (p : ℕ) (app : Application) → Posts app (of_removed types join app (remove_thread p app))
  unfolding of_removed
  of_removed-Posts p app = elim (remove_thread_cases p app) [
    | inl (_, e) ↦ rw e tt
    | inr (inl (_, _, e)) ↦ rw e (IsPosting-refl app)
    | inr (inr (after, e, (_, _, told), _)) ↦
        rw e (elim told [ inl (_, q) ↦ (_, q) | inr (_, q) ↦ ([], q ∙ sym (append-nil app.queue)) ])
  ]

  of_stopped-Posts :
      (o : Option Application) (app : Application)
      → PostsOption app o
      → Posts app (of_stopped types join o)
  unfolding of_stopped
  of_stopped-Posts none app h = tt
  of_stopped-Posts (some after) app h = h

  dispatch-Posts :
      (t : EventType) (ptr : ℕ) (app : Application) → Posts app (dispatch types join t ptr app)
  unfolding dispatch stop of_stopped quit
  dispatch-Posts thread_warning ptr app = IsPosting-refl app
  dispatch-Posts thread_remove ptr app = of_removed-Posts ptr app
  dispatch-Posts application_close ptr app = of_stopped-Posts _ app (stop_types-Posts types app)
  dispatch-Posts application_threads_gone ptr app = shutdown-IsPosting _ app
  dispatch-Posts application_shutdown ptr app = IsPosting-refl app
  dispatch-Posts application_restart ptr app = IsPosting-refl app
  dispatch-Posts _ ptr app = IsPosting-refl app

  pub event-Posts : (e : Event) (app : Application) → Posts app (event types join e app)
  unfolding event in_range
  event-Posts e app = elim (Bool-cases (in_range e.event_type)) [
    | inl r ↦ rw (r, event) (dispatch-Posts e.event_type e.ptr app)
    | inr r ↦ rw (r, event) (IsPosting-refl app)
  ]
