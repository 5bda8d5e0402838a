-- ===== src/Accessor/Sending.antt =====
-- event.cpp, post: an event for a worker reaches the threads that have it.
use drumlin.Prelude.{
  ℕ, ◌≡◌, refl, sym, ap, ◌∙◌, inl, inr, Bool, false, ◌≢◌, ◌&&◌, true, some, List, [], ◌∷◌, ◌++◌,
  append-nil, append_assoc, arith, ◌==◌, if◌then◌else◌, ==_iff, Bool-cases, if_cases, length, keep,
  nat_eq, bytes_eq,
}
use drumlin.Event.{Event}
use drumlin.Threads.{Thread, post_thread}
use drumlin.Accessor.{
  has_deleted, get_workered, selection_empty, apply, apply_to, send_event, post_selected,
  post_worker,
}

-- The event, as often as a pointer stands in a list.
abbrev pub copies : Event → ℕ → List ℕ → List Event
copies event q [] = []
copies event q (p ∷ ps) = if q == p then event ∷ copies event q ps else copies event q ps

-- A thread's queue after an event was sent along a list of threads.
queue-apply_to :
    (event : Event) (ps : List ℕ) (thread_at : ℕ → Thread) (q : ℕ)
    → (apply_to (send_event event) ps thread_at q).queue ≡ (thread_at q).queue ++ copies event q ps
unfolding apply_to send_event post_thread
queue-apply_to event [] thread_at q = sym (append-nil (thread_at q).queue)
queue-apply_to event (p ∷ ps) thread_at q =
    let next : ℕ → Thread = λ r. if r == p then send_event event (thread_at p) else thread_at r in
    queue-apply_to event ps next q ∙ elim (Bool-cases (q == p)) [
      | inl e ↦ rw e (
          ap (λ r. ((thread_at r).queue ++ event ∷ []) ++ copies event q ps)
            (sym ((==_iff q p).0 e))
          ∙ append_assoc (thread_at q).queue (event ∷ []) (copies event q ps))
      | inr e ↦ rw e
    ]

copies-keep :
    (thread_at : ℕ → Thread) (worker : ℕ) (event : Event) (q : ℕ) (all : List ℕ)
    → copies event q (keep (λ p. (thread_at p).worker == worker) all)
      ≡ (if (thread_at q).worker == worker then copies event q all else [])
copies-keep thread_at worker event q [] =
    if_cases (λ es. [] ≡ es) ((thread_at q).worker == worker) (λ e. refl) (λ e. refl)
copies-keep thread_at worker event q (p ∷ all) =
    let rest = copies-keep thread_at worker event q all in
    elim (Bool-cases (q == p)) [
      | inl e ↦
          let same : ((thread_at q).worker == worker) ≡ ((thread_at p).worker == worker) =
            ap (λ r. (thread_at r).worker == worker) ((==_iff q p).0 e) in
          elim (Bool-cases ((thread_at p).worker == worker)) [
            | inl g ↦
                let h = same ∙ g in
                let all_of : copies event q (keep (λ r. (thread_at r).worker == worker) all)
                    ≡ copies event q all =
                  rest ∙ rw h in
                rw (g, h, e) (ap (λ es. event ∷ es) all_of)
            | inr g ↦
                let h = same ∙ g in
                let none_of : copies event q (keep (λ r. (thread_at r).worker == worker) all) ≡ [] =
                  rest ∙ rw h in
                rw (g, h) none_of
          ]
      | inr e ↦ elim (Bool-cases ((thread_at p).worker == worker)) [
        | inl g ↦ rw (g, e) rest
        | inr g ↦ rw (g, e) rest
      ]
    ]

length-zero : (ps : List ℕ) → (length ps == 0) ≡ true → ps ≡ []
length-zero [] h = refl
length-zero (p ∷ ps) h = absurd (ground (arith, h))

-- An event that is posted to a worker, which is not the null pointer, while the application's list has no deleted
-- thread: it comes, in the queue of each thread that has the worker, behind what is there, as often as the
-- thread stands in the list; the other threads' queues stay, and nothing is thrown.
pub post_worker_queues :
    (debug : Bool) (deleted all : List ℕ) (thread_at : ℕ → Thread) (worker : ℕ) (event : Event)
    → has_deleted deleted all ≡ false
    → worker ≢ 0
    → (after : ℕ → Thread) × (post_worker debug deleted all thread_at worker event ≡ some after)
      × ((q : ℕ)
          → (after q).queue
            ≡ (thread_at q).queue
              ++ (if (thread_at q).worker == worker then copies event q all else []))
unfolding post_worker post_selected get_workered selection_empty apply
post_worker_queues debug deleted all thread_at worker event alive ne =
    let chosen = keep (λ p. (thread_at p).worker == worker) all in
    let quiet : (debug && worker == 0) ≡ false = ground (arith, ne, ==_iff worker 0) in
    elim (Bool-cases (length chosen == 0)) [
      | inl e ↦ (
        thread_at,
        rw (quiet, alive, post_worker, e) refl,
        λ q.
            sym (append-nil (thread_at q).queue)
            ∙ ap (λ es. (thread_at q).queue ++ es)
                (sym (ap (copies event q) (length-zero chosen e))
                  ∙ copies-keep thread_at worker event q all),
      )
      | inr e ↦ (
        apply_to (send_event event) chosen thread_at,
        rw (quiet, alive, post_worker, e) refl,
        λ q.
            queue-apply_to event chosen thread_at q
            ∙ ap (λ es. (thread_at q).queue ++ es) (copies-keep thread_at worker event q all),
      )
    ]
