-- ===== src/Work/Promises.antt =====
-- work.cpp and application.cpp: the two ways in which a promise is queued.
use drumlin.Prelude.{
  ℕ, ◌≡◌, ◌∙◌, ◌⊎◌, inl, inr, Bool, none, some, List, Option-cases, Bytes, eq_bytes_refl, before,
  nat_eq, bytes_eq, lookup, place, insert, lookup-place,
}
use drumlin.Work.{queue_promise, queue_promise_in_application}

-- The promise of a name that is new enters the map by either way; a name that is promised already makes
-- Promises::queuePromise throw, and Application::queuePromise, which Access uses, drop the new
-- promise without a word.
queue_promise_cases :
    (before : Bytes → Bytes → Bool) (name : Bytes) (promise : ℕ) (promises : List (Bytes × ℕ))
    → ((old : ℕ) × (lookup name promises ≡ some old)
        × (queue_promise before name promise promises ≡ none)
        × (queue_promise_in_application before name promise promises ≡ promises))
      ⊎ ((after : List (Bytes × ℕ)) × (lookup name promises ≡ none)
          × (queue_promise before name promise promises ≡ some after)
          × (queue_promise_in_application before name promise promises ≡ after)
          × (lookup name after ≡ some promise))
unfolding queue_promise queue_promise_in_application insert
queue_promise_cases before name promise promises = elim (Option-cases (lookup name promises)) [
  | inr (old, e) ↦ inl (old, e, rw (e, queue_promise), rw (e, insert, queue_promise_in_application))
  | inl e ↦ inr (
    place before name promise promises,
    e,
    rw (e, queue_promise),
    rw (e, insert, queue_promise_in_application),
    lookup-place before name name promise promises e ∙ rw (eq_bytes_refl name),
  )
]
