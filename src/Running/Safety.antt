-- ===== src/Running/Safety.antt =====
-- What holds of every state that threads and application reach from the start, as long as no thread is
-- sent a ThreadShutdown; and what becomes of a thread that is sent one.
use drumlin.Prelude.{
  ℕ, ◌≡◌, sym, ap, ◌∙◌, ◌≢◌, inl, inr, Bool, true, false, some, List, [], ◌∷◌, arith, ◌==◌, some_of,
  nat_eq, bytes_eq,
}
use drumlin.Event.{EventType, Event, thread_shutdown, thread_remove, application_close}
use drumlin.Threads.{Application, removed, remove_thread, delete_thread}
use drumlin.Dispatch.{round}
use drumlin.Running.{idle, finished, System, Reach}
use drumlin.Running.Counting.{Inv, ended, ended_cases, times, times-some}
use drumlin.Running.Dispatching.{round-total, removal-done, asked-ended}
use drumlin.Running.Stepping.{Reach-Inv}

-- The state before any step: threads are constructed, none runs, and nothing is queued.
abbrev pub IsInitial : System → Type 0
IsInitial s =
    (s.app.queue ≡ [])
    × (s.app.deleted ≡ [])
    × ((p : ℕ) → s.pc p ≡ idle)
    × ((p : ℕ) → (s.app.thread_at p).queue ≡ [])

idle-unfinished : idle ≢ finished
idle-unfinished h = cc

IsInitial-Inv : (s : System) → IsInitial s → Inv s.app s.pc
IsInitial-Inv s (queue, deleted, idles, quiet) = record {
  counted = λ p. rw (queue, deleted, idles p);
  resting = λ p h. absurd (idle-unfinished (sym (idles p) ∙ h));
  quiet = λ p. rw (quiet p) tt;
}

module _ (types : List ℕ) (join : ℕ → Application → Application) (takes : ℕ → Event → Bool)
    (ok : EventType → Bool) (calm : ok thread_shutdown ≡ false) where
  -- Every state that is reached without a ThreadShutdown counts, for each thread, one removal, queued or
  -- carried out, if the thread has finished and none otherwise; a thread that has finished does not run;
  -- and no thread has a ThreadShutdown in its queue.
  pub Reach-invariant :
      (s t : System) → IsInitial s → Reach types join takes ok s t → Inv t.app t.pc
  Reach-invariant s t h r = Reach-Inv types join takes ok calm r (IsInitial-Inv s h)

  -- Of threads that were constructed and an application without events, where no thread is sent a
  -- ThreadShutdown and the application dispatches no ApplicationClose: in every state they reach,
  -- whatever the order of their steps, a thread that was deleted has come to the end of run, and it was
  -- deleted once.
  pub deleted-finished :
      (s t : System) (p : ℕ)
      → IsInitial s
      → Reach types join takes ok s t
      → some_of (λ q. q == p) t.app.deleted ≡ true
      → (t.pc p ≡ finished) × (times p t.app.deleted ≡ 1)
  deleted-finished s t p h r gone =
      let inv = Reach-invariant s t h r in
      let once = times-some p t.app.deleted gone in
      elim (ended_cases (t.pc p)) [
        | inl f ↦ (f, omega (arith, inv.counted p, once, ap ended f))
        | inr z ↦ absurd (omega (arith, inv.counted p, once, z))
      ]

  -- In every state that is reached from the start without a ThreadShutdown and an ApplicationClose, a
  -- round of the application on a queue whose head is not ApplicationClose goes through: it reads no
  -- deleted thread.
  pub round_goes_on :
      (s t : System) (e : Event) (queue : List Event)
      → IsInitial s
      → Reach types join takes ok s t
      → t.app.queue ≡ e ∷ queue
      → e.event_type ≢ application_close
      → (after : Application) × (round types join t.app.queue t.app ≡ some after)
  round_goes_on s t e queue h r q n =
      let (after, ran, _) =
        round-total types join e queue t.app t.pc (Reach-invariant s t h r) q n in
      (after, ran)

  -- In every state that is reached from the start without a ThreadShutdown and an ApplicationClose, a
  -- ThreadRemove at the head of the queue is for a thread that has come to the end of run, and
  -- removeThread deletes it, without a throw.
  pub removal_succeeds :
      (s t : System) (e : Event) (queue : List Event)
      → IsInitial s
      → Reach types join takes ok s t
      → t.app.queue ≡ e ∷ queue
      → e.event_type ≡ thread_remove
      → let base = record t.app { queue = queue } in
        (t.pc e.ptr ≡ finished) × (remove_thread e.ptr base ≡ removed (delete_thread e.ptr base))
  removal_succeeds s t e queue h r q k =
      let inv = Reach-invariant s t h r in
      let (stands, _) = asked-ended e queue t.app t.pc inv q k in
      let (done, _) = removal-done e queue t.app t.pc inv q k in (stands, done)
