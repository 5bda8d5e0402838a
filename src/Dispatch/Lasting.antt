-- ===== src/Dispatch/Lasting.antt =====
-- application.cpp, event: only an ApplicationShutdown ends the loop of exec.
use drumlin.Prelude.{
  ℕ, ◌≡◌, refl, ◌≢◌, inl, inr, Bool, true, false, List, ◌==◌, not, some_of, ◌&&◌, Bool-cases,
  nat_eq, bytes_eq,
}
use drumlin.Event.{
  EventType, Event, in_range, thread_warning, thread_remove, application_close,
  application_threads_gone, application_shutdown, application_restart,
}
use drumlin.Threads.{Application, remove, remove_thread, delete_thread, post}
use drumlin.Dispatch.{shutdown, Handled, unsound, handled, of_removed, quit, dispatch, event}

-- What is handled leaves the flag of the loop as it was.
abbrev pub Lasts : Application → Handled → Type 0
Lasts app unsound = Unit {0}
Lasts app (handled after taken) = after.terminated ≡ app.terminated

delete_thread_lasts :
    (p : ℕ) (app : Application) → (delete_thread p app).terminated ≡ app.terminated
unfolding delete_thread post
delete_thread_lasts p app = elim (Bool-cases ((remove p app.threads).1 == 0)) [
  | inl e ↦ rw e refl
  | inr e ↦ rw e refl
]

shutdown_lasts :
    (restarting : Bool) (app : Application) → (shutdown restarting app).terminated ≡ app.terminated
unfolding shutdown post
shutdown_lasts true app = refl
shutdown_lasts false app = refl

module _ (types : List ℕ) (join : ℕ → Application → Application) where
  of_removed-Lasts :
      (p : ℕ) (app : Application) → Lasts app (of_removed types join app (remove_thread p app))
  unfolding of_removed remove_thread
  of_removed-Lasts p app = elim (Bool-cases (some_of (λ q. q == p) app.deleted)) [
    | inl e ↦ rw (e, remove_thread) tt
    | inr e ↦ elim (Bool-cases ((app.thread_at p).ready && not (app.thread_at p).terminated)) [
      | inl f ↦ rw (e, f, remove_thread) refl
      | inr f ↦ rw (e, f, remove_thread) (delete_thread_lasts p app)
    ]
  ]

  dispatch-Lasts :
      (t : EventType) (ptr : ℕ) (app : Application)
      → t ≢ application_close
      → t ≢ application_shutdown
      → Lasts app (dispatch types join t ptr app)
  unfolding dispatch quit
  dispatch-Lasts thread_warning ptr app c s = refl
  dispatch-Lasts thread_remove ptr app c s = of_removed-Lasts ptr app
  dispatch-Lasts application_close ptr app c s = absurd (c refl)
  dispatch-Lasts application_threads_gone ptr app c s = shutdown_lasts (not (ptr == 0)) app
  dispatch-Lasts application_shutdown ptr app c s = absurd (s refl)
  dispatch-Lasts application_restart ptr app c s = refl
  dispatch-Lasts _ ptr app c s = refl

  pub event-Lasts :
      (e : Event) (app : Application)
      → e.event_type ≢ application_close
      → e.event_type ≢ application_shutdown
      → Lasts app (event types join e app)
  unfolding event
  event-Lasts e app c s = elim (Bool-cases (in_range e.event_type)) [
    | inl r ↦ rw (r, event) (dispatch-Lasts e.event_type e.ptr app c s)
    | inr r ↦ rw (r, event) refl
  ]
