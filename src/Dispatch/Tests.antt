-- ===== src/Dispatch/Tests.antt =====
-- Concrete runs of the theorems of the loop of the application.
use drumlin.Prelude.{
  ℕ, ◌≡◌, refl, sym, ◌⊎◌, true, false, [], ◌∷◌, append-nil, arith, nat_eq, bytes_eq,
}
use drumlin.Event.{Event, thread_warning, application_shutdown}
use drumlin.Threads.{Application, make_thread}
use drumlin.Dispatch.{broken, returned, exec}
use drumlin.Dispatch.Posting.{IsPosting}
use drumlin.Dispatch.Shutdown.{exec_returns}

abbrev warning : Event
warning = record { event_type = thread_warning; name = []; ptr = 0 }

abbrev shutdown_event : Event
shutdown_event = record { event_type = application_shutdown; name = []; ptr = 0 }

-- A warning stands before the shutdown in the queue.
abbrev waiting : Application
waiting = record {
  threads = [];
  thread_at = λ p. make_thread [] 9 1;
  deleted = [];
  terminated = false;
  queue = warning ∷ shutdown_event ∷ [];
}

-- A wait in which nothing happens.
abbrev quiet : ℕ → Application → Application
quiet p app = app

quiet-IsPosting : (p : ℕ) (app : Application) → IsPosting app (quiet p app)
quiet-IsPosting p app = ([], sym (append-nil app.queue))

exec_returns_example :
    (exec (1 ∷ []) quiet 3 waiting ≡ broken)
    ⊎ ((after : Application) × (exec (1 ∷ []) quiet 3 waiting ≡ returned after)
        × (after.terminated ≡ true))
exec_returns_example =
    exec_returns (1 ∷ []) quiet quiet-IsPosting (warning ∷ []) [] shutdown_event 3 waiting refl refl
      (omega arith)
