-- ===== src/Signals/Tests.antt =====
-- The signal to reload, while a warning waits.
use drumlin.Prelude.{
  ℕ, ◌≡◌, sym, ◌⊎◌, true, false, [], ◌∷◌, append-nil, arith, Bytes, nat_eq, bytes_eq,
}
use drumlin.Event.{thread_warning}
use drumlin.Threads.{Application, make_thread}
use drumlin.Dispatch.{broken, returned, exec}
use drumlin.Dispatch.Posting.{IsPosting}
use drumlin.Signals.{SignalType, sighup, handle_func}
use drumlin.Signals.Ending.{handle_func-exec}

abbrev idle_app : Application
idle_app = record {
  threads = [];
  thread_at = λ p. make_thread [] 9 1;
  deleted = [];
  terminated = false;
  queue = record { event_type = thread_warning; name = []; ptr = 0 } ∷ [];
}

abbrev no_wait : ℕ → Application → Application
no_wait p app = app

no_wait-IsPosting : (p : ℕ) (app : Application) → IsPosting app (no_wait p app)
no_wait-IsPosting p app = ([], sym (append-nil app.queue))

abbrev no_name : SignalType → Bytes
no_name signal = []

handle_func-exec_example :
    (exec [] no_wait 3 (handle_func no_name true sighup idle_app) ≡ broken)
    ⊎ ((ended : Application) × (exec [] no_wait 3 (handle_func no_name true sighup idle_app)
          ≡ returned ended)
        × (ended.terminated ≡ true))
handle_func-exec_example =
    handle_func-exec [] no_wait no_wait-IsPosting no_name sighup 3 idle_app (omega arith)
