-- ===== src/Running.antt =====
-- thread.cpp, event, exec and run: what a thread does on its own, a step at a time, next to the steps of
-- the application. The worker's answer to an event is the parameter `takes`; its work and its
-- shutdown touch nothing that stands here. A thread without a worker reads through a null pointer
-- when an event comes. `skip` is a round whose lock is taken, and an interruption may end the loop at its
-- test. A thread is started once, and Application::stop is not among the steps.
pub mod Counting
pub mod Dispatching
pub mod Moving
pub mod Stepping
pub mod Safety
pub mod Progress
mod Tests
use drumlin.Prelude.{
  ℕ, ◌≡◌, ◌≢◌, Bool, true, false, not, ◌&&◌, Option, none, some, List, [], ◌∷◌, ◌==◌, if◌then◌else◌,
  codes, nat_eq, bytes_eq,
}
use drumlin.Event.{
  EventType, Event, in_range, make_event, event_none, event_first, thread_first, thread_work,
  thread_notify, thread_warning, thread_shutdown, thread_remove, thread_last, application_close,
  application_threads_gone, application_shutdown, application_restart, event_last,
}
use drumlin.Threads.{
  Thread, Application, set_thread, post_thread, start, terminate, quit_thread, add_thread,
}
use drumlin.Dispatch.{round}

-- The switch of Thread::event.
pub work_or_quit : EventType → ℕ → Application → Application × Bool
unfolding quit_thread
work_or_quit thread_work p app = (app, true)
work_or_quit thread_shutdown p app = (quit_thread p app, true)
work_or_quit _ p app = (app, false)

-- A thread that was not started, at the head of run, at the test of its loop, before the pull of an
-- event, before the work of a round, behind the loop, and where run has returned.
pub data Pc : Type 0 where
  idle opening looping pulling working closing finished : Pc

pub record System : Type 0 where
  pub app : Application
  pub pc : ℕ → Pc

abbrev pub set_pc : ℕ → Pc → (ℕ → Pc) → ℕ → Pc
set_pc p c pc q = if q == p then c else pc q

module _ (takes : ℕ → Event → Bool) where
  -- Thread::event
  pub thread_event : Event → ℕ → Application → Option (Application × Bool)
  unfolding work_or_quit in_range
  thread_event pevent p app =
      let worker = (app.thread_at p).worker in
      if worker == 0
      then none
      else if takes worker pevent
      then some (app, true)
      else if not (in_range pevent.event_type)
      then some (app, false)
      else some (work_or_quit pevent.event_type p app)

  pub exec_queue : List Event → ℕ → Application → Option (Application × Bool)
  unfolding thread_event set_thread
  exec_queue [] p app = some (app, true)
  exec_queue (pevent ∷ queue) p app =
      thread_event pevent p (set_thread p (record (app.thread_at p) { queue = queue }) app)

  -- Thread::exec
  pub exec : ℕ → Application → Option (Application × Bool)
  unfolding exec_queue
  exec p app = exec_queue (app.thread_at p).queue p app

  -- The event that run makes in each round.
  pub tick : ℕ → Application → Option (Application × Bool)
  unfolding thread_event make_event
  tick p app = thread_event (make_event thread_work (codes "tick") 0) p app

-- The two events that run begins with.
pub open_run : ℕ → Application → Application
unfolding set_thread post_thread make_event
open_run p app =
    let before_work = make_event thread_notify (codes "beforeWork") 0 in
    let work = make_event thread_work (codes "work") 0 in
    set_thread p (post_thread work (post_thread before_work (app.thread_at p))) app

-- The test of the loop, but for the interruption.
unfoldable pub goes_on : Thread → Bool
goes_on t = t.ready && (not t.deleting && not t.terminated)

-- The end of the loop.
pub leave_run : ℕ → Application → Application
unfolding set_thread
leave_run p app = set_thread p (record (app.thread_at p) { deleting = true }) app

-- What run does behind its loop: the worker is let go, or the thread terminated.
unfoldable pub let_go : Thread → Thread
unfolding terminate
let_go t = if t.worker == 0 then terminate t else record t { worker = 0 }

-- The end of run.
unfoldable pub close_run : ℕ → Application → Application
unfolding set_thread let_go quit_thread
close_run p app =
    quit_thread p (set_thread p (record (let_go (app.thread_at p)) { ready = false }) app)

-- The steps of the application and of its threads. `ok` says which events are sent to threads.
module _ (types : List ℕ) (join : ℕ → Application → Application) (takes : ℕ → Event → Bool)
    (ok : EventType → Bool) where
  pub data Step (s : System) : System → Type 0 where
    add : (p : ℕ) → Step s (record s { app = add_thread p false s.app })
    add_started :
        (p : ℕ)
        → s.pc p ≡ idle
        → Step s (record { app = add_thread p true s.app; pc = set_pc p opening s.pc })
    start_thread :
        (p : ℕ)
        → s.pc p ≡ idle
        → Step s (record {
          app = set_thread p (start (s.app.thread_at p)) s.app;
          pc = set_pc p opening s.pc;
        })
    send :
        (p : ℕ) (pevent : Event)
        → ok pevent.event_type ≡ true
        → Step s (record s { app = set_thread p (post_thread pevent (s.app.thread_at p)) s.app })
    stop : (p : ℕ) → Step s (record s { app = set_thread p (terminate (s.app.thread_at p)) s.app })
    enter :
        (p : ℕ)
        → s.pc p ≡ opening
        → Step s (record {
          app = open_run p s.app;
          pc = set_pc p (if (s.app.thread_at p).terminated then closing else looping) s.pc;
        })
    go_on :
        (p : ℕ)
        → s.pc p ≡ looping
        → goes_on (s.app.thread_at p) ≡ true
        → Step s (record s { pc = set_pc p pulling s.pc })
    skip : (p : ℕ) → s.pc p ≡ pulling → Step s (record s { pc = set_pc p working s.pc })
    pull :
        (p : ℕ) (taken : Bool) (after : Application)
        → s.pc p ≡ pulling
        → exec takes p s.app ≡ some (after, taken)
        → Step s (record { app = after; pc = set_pc p working s.pc })
    work :
        (p : ℕ) (after : Application)
        → s.pc p ≡ working
        → tick takes p s.app ≡ some (after, true)
        → Step s (record { app = after; pc = set_pc p looping s.pc })
    give_up :
        (p : ℕ) (after : Application)
        → s.pc p ≡ working
        → tick takes p s.app ≡ some (after, false)
        → Step s (record { app = leave_run p after; pc = set_pc p closing s.pc })
    leave :
        (p : ℕ)
        → s.pc p ≡ looping
        → Step s (record { app = leave_run p s.app; pc = set_pc p closing s.pc })
    close :
        (p : ℕ)
        → s.pc p ≡ closing
        → Step s (record { app = close_run p s.app; pc = set_pc p finished s.pc })
    dispatch :
        (pevent : Event) (queue : List Event) (after : Application)
        → s.app.terminated ≡ false
        → s.app.queue ≡ pevent ∷ queue
        → pevent.event_type ≢ application_close
        → round types join s.app.queue s.app ≡ some after
        → Step s (record s { app = after })

  pub data Reach (s : System) : System → Type 0 where
    here : Reach s s
    next : {t u : System} → Reach s t → Step t u → Reach s u
