-- ===== src/Dispatch.antt =====
-- application.cpp, the events of the application: event, stop, shutdown, quit and exec. `types` are the
-- thread types that stop goes through, in its order, and `join` is what the program does while stop
-- waits for a thread that runs. An interruption of the main thread, the log and the tracer are left
-- out. exec runs for a number of rounds.
pub mod Posting
pub mod Lasting
pub mod Shutdown
mod Tests
use drumlin.Prelude.{
  ℕ, zero, suc, Bool, true, false, not, ◌&&◌, Option, none, some, List, [], ◌∷◌, ◌==◌,
  if◌then◌else◌, keep, some_of, codes, nat_eq, bytes_eq,
}
use drumlin.Event.{
  EventType, Event, in_range, make_event, event_none, event_first, thread_first, thread_work,
  thread_notify, thread_warning, thread_shutdown, thread_remove, thread_last, application_close,
  application_threads_gone, application_shutdown, application_restart, event_last,
}
use drumlin.Threads.{
  Thread, Application, Removed, undefined, thrown, removed, remove_thread, post, set_thread,
  terminate, quit_thread,
}

-- Application::quit
unfoldable pub quit : Application → Application
quit app = record app { terminated = true }

-- Application::shutdown
unfoldable pub shutdown : Bool → Application → Application
unfolding post make_event
shutdown restarting app =
    if not restarting
    then post (make_event application_shutdown (codes "Shutdown::shutdown") 0) app
    else post (make_event application_restart (codes "Shutdown::restart") 0) app

pub terminate_all : List ℕ → Application → Application
unfolding set_thread terminate
terminate_all [] app = app
terminate_all (p ∷ ps) app = terminate_all ps (set_thread p (terminate (app.thread_at p)) app)

-- What the dispatch of an event does: it reads a deleted thread, or it says whether it took the event.
pub data Handled : Type 0 where
  unsound : Handled
  handled : Application → Bool → Handled

-- exec after a number of rounds.
pub data Executed : Type 0 where
  broken : Executed
  running returned : Application → Executed

-- The threads that stop copies: those with a worker of a type.
abbrev pub chosen : ℕ → Application → List ℕ
chosen worker_type app =
    keep (λ p. not ((app.thread_at p).worker == 0) && (app.thread_at p).worker_type == worker_type)
      app.threads

module _ (types : List ℕ) (join : ℕ → Application → Application) where
  -- The second loop of stop.
  pub wait_all : List ℕ → Application → Application
  unfolding quit_thread
  wait_all [] app = app
  wait_all (p ∷ ps) app =
      let ready = (app.thread_at p).ready in
      wait_all ps (if not ready then quit_thread p app else join p app)

  -- One round of stop; a list with a deleted thread is read beyond its life.
  pub stop_type : ℕ → Application → Option Application
  unfolding terminate_all wait_all
  stop_type worker_type app =
      let copied = chosen worker_type app in
      if some_of (λ p. some_of (λ q. q == p) app.deleted) app.threads
      then none
      else some (wait_all copied (terminate_all copied app))

  pub stop_types : List ℕ → Application → Option Application
  unfolding stop_type
  stop_types [] app = some app
  stop_types (worker_type ∷ rest) app = elim (stop_type worker_type app) [
    | none ↦ none
    | some after ↦ stop_types rest after
  ]

  -- Application::stop
  pub stop : Application → Option Application
  unfolding stop_types
  stop app = stop_types types app

  unfoldable pub of_removed : Application → Removed → Handled
  of_removed app undefined = unsound
  of_removed app thrown = handled app false
  of_removed app (removed after) = handled after true

  unfoldable pub of_stopped : Option Application → Handled
  of_stopped none = unsound
  of_stopped (some after) = handled after true

  -- The switch of Application::event.
  unfoldable pub dispatch : EventType → ℕ → Application → Handled
  unfolding of_removed of_stopped remove_thread stop shutdown quit
  dispatch thread_warning ptr app = handled app true
  dispatch thread_remove ptr app = of_removed app (remove_thread ptr app)
  dispatch application_close ptr app = of_stopped (stop app)
  dispatch application_threads_gone ptr app = handled (shutdown (not (ptr == 0)) app) true
  dispatch application_shutdown ptr app = handled (quit app) true
  dispatch application_restart ptr app = handled app true
  dispatch _ ptr app = handled app false

  -- Application::event
  unfoldable pub event : Event → Application → Handled
  unfolding dispatch in_range
  event pevent app =
      if not (in_range pevent.event_type)
      then handled app false
      else dispatch pevent.event_type pevent.ptr app

  -- One round of exec: an event that is pulled is dispatched, whether or not it is taken.
  unfoldable pub round : List Event → Application → Option Application
  unfolding event
  round [] app = some app
  round (pevent ∷ queue) app = elim (event pevent (record app { queue = queue })) [
    | unsound ↦ none
    | handled after taken ↦ some after
  ]

  -- Application::exec
  pub exec : ℕ → Application → Executed
  unfolding round
  exec zero app = running app
  exec (suc fuel) app =
      if app.terminated
      then returned app
      else elim (round app.queue app) [ none ↦ broken | some after ↦ exec fuel after ]
