-- ===== src/Signals/Ending.antt =====
-- signalhandler.cpp with application.cpp: a signal that is handled ends the loop of the application.
use drumlin.Prelude.{ℕ, ◌+◌, ◌≤◌, ◌≡◌, refl, ◌⊎◌, true, List, [], length, Bytes, nat_eq, bytes_eq}
use drumlin.Event.{make_event, application_shutdown}
use drumlin.Threads.{Application, post}
use drumlin.Dispatch.{broken, returned, exec}
use drumlin.Dispatch.Posting.{IsPosting}
use drumlin.Dispatch.Shutdown.{exec_returns}
use drumlin.Signals.{
  SignalType, Physical, handle_func, handle_signal, physical_to_logical, signal_number,
}

module _ (types : List ℕ) (join : ℕ → Application → Application)
    (joins : (p : ℕ) (app : Application) → IsPosting app (join p app)) where
  -- Whatever signal of the system is handled, be it the one to reload, exec then goes through the events
  -- that waited and returns, with the application terminated, within a round for each of them and two more,
  -- unless it reads a deleted thread before. Waiting for a thread is to do nothing to the
  -- application but post events.
  pub handle_func-exec :
      (to_string : SignalType → Bytes) (signal : Physical) (fuel : ℕ) (app : Application)
      → length app.queue + 2 ≤ fuel
      → let after = handle_func to_string true signal app in
        (exec types join fuel after ≡ broken)
        ⊎ ((ended : Application) × (exec types join fuel after ≡ returned ended)
            × (ended.terminated ≡ true))
  unfolding handle_func handle_signal post make_event
  handle_func-exec to_string signal fuel app h =
      let logical = physical_to_logical signal in
      exec_returns types join joins app.queue []
        (make_event application_shutdown (to_string logical) (signal_number logical)) fuel
        (handle_func to_string true signal app) refl refl h
