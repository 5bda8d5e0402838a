-- ===== src/Accessor/Tests.antt =====
-- Concrete runs of the theorems of the choice of threads.
use drumlin.Prelude.{
  arith, refl, true, false, ◌≢◌, ℕ, ◌+◌, ◌≡◌, some, List, [], ◌∷◌, ◌++◌, ◌==◌, if◌then◌else◌,
  nat_eq, bytes_eq,
}
use drumlin.Threads.{Thread, make_thread}
use drumlin.Event.{Event, thread_notify}
use drumlin.Accessor.{has_deleted, post_worker}
use drumlin.Accessor.Sending.{copies, post_worker_queues}

-- The threads 1 and 2 have the task "a", and 3 has "b".
abbrev thread_at : ℕ → Thread
thread_at p = make_thread (if p == 3 then b'b' ∷ [] else b'a' ∷ []) (p + 100) 1

abbrev all : List ℕ
all = 1 ∷ 2 ∷ 3 ∷ []

abbrev message : Event
message = record { event_type = thread_notify; name = []; ptr = 0 }

some_worker : ◌≢◌ {A = ℕ} 102 0
some_worker h = absurd (omega (arith, h))

none_deleted : has_deleted (9 ∷ []) all ≡ false
unfolding has_deleted
none_deleted = refl

post_worker_queues_example :
    (after : ℕ → Thread) × (post_worker true (9 ∷ []) all thread_at 102 message ≡ some after)
    × ((q : ℕ)
        → (after q).queue
          ≡ (thread_at q).queue
            ++ (if (thread_at q).worker == 102 then copies message q all else []))
post_worker_queues_example =
    post_worker_queues true (9 ∷ []) all thread_at 102 message none_deleted some_worker
