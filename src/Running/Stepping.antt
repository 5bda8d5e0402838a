-- ===== src/Running/Stepping.antt =====
-- The steps of threads and application keep the invariant as long as no thread is sent a
-- ThreadShutdown.
use drumlin.Prelude.{
  ℕ, ◌≡◌, refl, sym, ap, ◌∙◌, subst, inl, inr, Bool, true, false, some, List, [], ◌∷◌, ◌++◌, ◌==◌,
  if◌then◌else◌, ==_refl, Bool-cases, All-append, Bytes, codes, nat_eq, bytes_eq,
}
use drumlin.Event.{EventType, Event, make_event, thread_work, thread_notify, thread_shutdown}
use drumlin.Threads.{Thread, Application, set_thread, post_thread, start, terminate, add_thread}
use drumlin.Running.{
  Pc, idle, opening, looping, pulling, working, go_on, skip, give_up, closing, finished, System,
  set_pc, Step, Reach, here, next, add, add_started, start_thread, send, stop, enter, pull, work,
  leave, close, dispatch, exec, tick, open_run, leave_run, let_go, close_run,
}
use drumlin.Running.Counting.{Inv, IsQuiet, ended, set_thread-Inv, quit_thread-Inv}
use drumlin.Running.Dispatching.{round-Inv, apart}
use drumlin.Running.Moving.{
  thread_event-quiet, elsewhere, at_home, moves-Inv, at-Inv, stays-Inv, exec_queue-Inv,
  open_queue-quiet,
}

terminate-keeps : (t : Thread) → ((terminate t).ready ≡ t.ready) × ((terminate t).queue ≡ t.queue)
unfolding terminate
terminate-keeps t = elim (Bool-cases t.terminated) [
  | inl e ↦ rw e (refl, refl)
  | inr e ↦ rw e (refl, refl)
]

queue-start : (t : Thread) → (start t).queue ≡ t.queue
unfolding start
queue-start t = elim (Bool-cases t.ready) [ inl e ↦ rw e | inr e ↦ rw e ]

queue-let_go : (t : Thread) → (let_go t).queue ≡ t.queue
unfolding let_go
queue-let_go t = elim (Bool-cases (t.worker == 0)) [
  | inl e ↦ rw e ((terminate-keeps t).1)
  | inr e ↦ rw e
]

notify-quiet : (name : Bytes) → IsQuiet (make_event thread_notify name 0)
unfolding make_event
notify-quiet name h = cc

work-quiet : (name : Bytes) → IsQuiet (make_event thread_work name 0)
unfolding make_event
work-quiet name h = cc

add_started-Inv :
    (p : ℕ) (app : Application) (pc : ℕ → Pc)
    → Inv app pc
    → pc p ≡ idle
    → Inv (add_thread p true app) (set_pc p opening pc)
unfolding add_thread post_thread
add_started-Inv p app pc inv here_now =
    let pushed : Application = record app { threads = app.threads ++ p ∷ [] } in
    let grown : Inv pushed pc = record {
      counted = inv.counted;
      resting = inv.resting;
      quiet = inv.quiet;
    } in
    let notify = make_event thread_notify (codes "beforeStart") 0 in
    let t = post_thread notify (app.thread_at p) in
    moves-Inv p opening (start t) pushed pc grown (ap ended here_now) refl (
      rw (queue-start t) (
        All-append IsQuiet (app.thread_at p).queue (notify ∷ []) (inv.quiet p)
          (notify-quiet (codes "beforeStart"), tt)))

enter-Inv :
    (p : ℕ) (app : Application) (pc : ℕ → Pc)
    → Inv app pc
    → pc p ≡ opening
    → Inv (open_run p app) (set_pc p (if (app.thread_at p).terminated then closing else looping) pc)
unfolding open_run post_thread
enter-Inv p app pc inv here_now =
    moves-Inv p _ _ app pc inv (ap ended here_now)
      (elim (Bool-cases (app.thread_at p).terminated) [ inl e ↦ rw e | inr e ↦ rw e ])
      (open_queue-quiet (app.thread_at p).queue _ _ (inv.quiet p)
        (notify-quiet (codes "beforeWork")) (work-quiet (codes "work")))

close-Inv :
    (p : ℕ) (app : Application) (pc : ℕ → Pc)
    → Inv app pc
    → pc p ≡ closing
    → Inv (close_run p app) (set_pc p finished pc)
unfolding close_run set_thread
close-Inv p app pc inv here_now =
    let t : Thread = record (let_go (app.thread_at p)) { ready = false } in
    let rested =
      set_thread-Inv p t app pc pc inv (λ q e. refl) refl (λ h. refl)
        (rw (queue-let_go (app.thread_at p)) (inv.quiet p)) in
    quit_thread-Inv p (set_thread p t app) pc (set_pc p finished pc) rested
      (elsewhere p finished pc) (ap ended here_now) (at_home p finished pc) (rw (==_refl p))

module _ (types : List ℕ) (join : ℕ → Application → Application) (takes : ℕ → Event → Bool)
    (ok : EventType → Bool) (calm : ok thread_shutdown ≡ false) where
  tick-Inv :
      (p : ℕ) (app after : Application) (taken : Bool) (pc : ℕ → Pc)
      → Inv app pc
      → tick takes p app ≡ some (after, taken)
      → Inv after pc
  unfolding tick
  tick-Inv p app after taken pc inv r =
      subst (λ a. Inv a pc)
        (sym (
          thread_event-quiet takes (make_event thread_work (codes "tick") 0) p app after taken
            (work-quiet (codes "tick")) r))
        inv

  pub Step-Inv : {s t : System} → Step types join takes ok s t → Inv s.app s.pc → Inv t.app t.pc
  unfolding add_thread post_thread exec tick leave_run
  Step-Inv {s} (add p) inv = record {
    counted = inv.counted;
    resting = inv.resting;
    quiet = inv.quiet;
  }
  Step-Inv {s} (add_started p i) inv = add_started-Inv p s.app s.pc inv i
  Step-Inv {s} (start_thread p i) inv =
      moves-Inv p opening _ s.app s.pc inv (ap ended i) refl
        (rw (queue-start (s.app.thread_at p)) (inv.quiet p))
  Step-Inv {s} (send p e o) inv =
      let e-quiet : IsQuiet e = λ h. apart (sym o ∙ ap ok h ∙ calm) in
      stays-Inv p _ s.app s.pc inv refl
        (All-append IsQuiet (s.app.thread_at p).queue (e ∷ []) (inv.quiet p) (e-quiet, tt))
  Step-Inv {s} (stop p) inv =
      let (same, kept) = terminate-keeps (s.app.thread_at p) in
      stays-Inv p _ s.app s.pc inv same (rw kept (inv.quiet p))
  Step-Inv {s} (enter p i) inv = enter-Inv p s.app s.pc inv i
  Step-Inv {s} (go_on p i g) inv = at-Inv p pulling s.app s.pc inv (ap ended i) refl
  Step-Inv {s} (skip p i) inv = at-Inv p working s.app s.pc inv (ap ended i) refl
  Step-Inv {s} (pull p taken after i r) inv =
      let kept =
        exec_queue-Inv takes (s.app.thread_at p).queue p s.app after taken s.pc inv (inv.quiet p)
          r in
      at-Inv p working after s.pc kept (ap ended i) refl
  Step-Inv {s} (work p after i r) inv =
      at-Inv p looping after s.pc (tick-Inv p s.app after true s.pc inv r) (ap ended i) refl
  Step-Inv {s} (give_up p after i r) inv =
      let kept = tick-Inv p s.app after false s.pc inv r in
      moves-Inv p closing (record (after.thread_at p) { deleting = true }) after s.pc kept
        (ap ended i) refl (kept.quiet p)
  Step-Inv {s} (leave p i) inv =
      moves-Inv p closing _ s.app s.pc inv (ap ended i) refl (inv.quiet p)
  Step-Inv {s} (close p i) inv = close-Inv p s.app s.pc inv i
  Step-Inv {s} (dispatch e queue after alive q n r) inv =
      round-Inv types join e queue s.app after s.pc inv q n r

  pub Reach-Inv : {s t : System} → Reach types join takes ok s t → Inv s.app s.pc → Inv t.app t.pc
  Reach-Inv here inv = inv
  Reach-Inv (next r st) inv = Step-Inv st (Reach-Inv r inv)
