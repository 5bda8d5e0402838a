-- ===== src/Running/Tests.antt =====
-- One thread that is started, runs, leaves its loop and is deleted.
use drumlin.Prelude.{
  ℕ, ◌≡◌, refl, sym, ◌≢◌, Bool, true, false, some, [], ◌∷◌, append-nil, ◌==◌, some_of, codes,
  nat_eq, bytes_eq,
}
use drumlin.Event.{
  EventType, Event, in_range, make_event, thread_shutdown, thread_remove, application_close,
}
use drumlin.Threads.{
  remove, Application, add_thread, set_thread, post_thread, start, remove_thread, delete_thread,
  quit_thread, post, terminate,
}
use drumlin.Dispatch.{round, event, of_removed, dispatch as dispatch_event}
use drumlin.Running.{
  idle, opening, looping, closing, finished, System, set_pc, Reach, here, next, add_started, enter,
  leave, close, dispatch, open_run, leave_run, close_run, let_go,
}
use drumlin.Running.Counting.{times}
use drumlin.Dispatch.Posting.{IsPosting}
use drumlin.Running.Progress.{removal_completes}
use drumlin.Running.Safety.{IsInitial, deleted-finished, round_goes_on}

abbrev no_join : ℕ → Application → Application
no_join p app = app

abbrev takes_none : ℕ → Event → Bool
takes_none worker e = false

abbrev calls : EventType → Bool
calls thread_shutdown = false
calls _ = true

abbrev one_thread : System
one_thread = record {
  app = record {
    threads = [];
    thread_at = λ q. record {
      task = [];
      worker = 7;
      worker_type = 0;
      ready = false;
      deleting = false;
      terminated = false;
      queue = [];
    };
    deleted = [];
    terminated = false;
    queue = [];
  };
  pc = λ q. idle;
}

one_thread-IsInitial : IsInitial one_thread
one_thread-IsInitial = (refl, refl, λ p. refl, λ p. refl)

abbrev begun : System
begun = record { app = add_thread 1 true one_thread.app; pc = set_pc 1 opening one_thread.pc }

abbrev entered : System
entered = record { app = open_run 1 begun.app; pc = set_pc 1 looping begun.pc }

abbrev left : System
left = record { app = leave_run 1 entered.app; pc = set_pc 1 closing entered.pc }

abbrev closed : System
closed = record { app = close_run 1 left.app; pc = set_pc 1 finished left.pc }

closed-Reach : Reach [] no_join takes_none calls one_thread closed
unfolding add_thread open_run leave_run close_run set_thread post_thread start
closed-Reach =
    next (next (next (next here (add_started 1 refl)) (enter 1 refl)) (leave 1 refl)) (close 1 refl)

abbrev removal : Event
removal = make_event thread_remove (codes "removeThread") 1

abbrev removed_app : Application
removed_app = delete_thread 1 (record closed.app { queue = [] })

abbrev done : System
done = record { app = removed_app; pc = closed.pc }

closed-queue : closed.app.queue ≡ removal ∷ []
unfolding close_run quit_thread post make_event let_go leave_run open_run add_thread set_thread
closed-queue = refl

removal-close : removal.event_type ≢ application_close
unfolding make_event
removal-close h = cc

removal-remove : removal.event_type ≡ thread_remove
unfolding make_event
removal-remove = refl

done-deleted : some_of (λ q. q == 1) done.app.deleted ≡ true
unfolding delete_thread remove close_run quit_thread post make_event let_go leave_run open_run
    add_thread set_thread
done-deleted = refl

done-round : round [] no_join closed.app.queue closed.app ≡ some removed_app
unfolding delete_thread remove close_run quit_thread post make_event let_go leave_run open_run
    add_thread set_thread round event dispatch_event of_removed remove_thread in_range
done-round = refl

closed-alive : closed.app.terminated ≡ false
unfolding close_run quit_thread post let_go leave_run open_run add_thread set_thread
closed-alive = refl

done-Reach : Reach [] no_join takes_none calls one_thread done
done-Reach =
    next closed-Reach
      (dispatch removal [] removed_app closed-alive closed-queue removal-close done-round)

deleted-finished_example : (done.pc 1 ≡ finished) × (times 1 done.app.deleted ≡ 1)
deleted-finished_example =
    deleted-finished [] no_join takes_none calls refl one_thread done 1 one_thread-IsInitial
      done-Reach done-deleted

round_goes_on_example :
    (after : Application) × (round [] no_join closed.app.queue closed.app ≡ some after)
round_goes_on_example =
    round_goes_on [] no_join takes_none calls refl one_thread closed removal [] one_thread-IsInitial
      closed-Reach closed-queue removal-close

abbrev asked : Application
asked = quit_thread 1 entered.app

abbrev ended_too : Application
ended_too = set_thread 1 (terminate (asked.thread_at 1)) asked

no_join-IsPosting : (p : ℕ) (app : Application) → IsPosting app (no_join p app)
no_join-IsPosting p app = ([], sym (append-nil app.queue))

removal_completes_example :
    (u : System) × Reach [] no_join takes_none calls closed u
    × (some_of (λ q. q == removal.ptr) u.app.deleted ≡ true)
    × (u.pc ≡ closed.pc)
removal_completes_example =
    removal_completes [] no_join takes_none calls no_join-IsPosting refl one_thread closed [] []
      removal one_thread-IsInitial closed-Reach closed-alive closed-queue removal-remove tt
