-- ===== src/Threads/Removing.antt =====
-- application.cpp, removeThread: what std::remove without an erase leaves of the list of threads.
use drumlin.Prelude.{
  ℕ, zero, suc, ◌≤◌, ◌≡◌, refl, sym, ap, ◌∙◌, subst, ◌≢◌, ◌⊎◌, inl, inr, true, false, not, ◌&&◌,
  none, some, List, [], ◌∷◌, ◌++◌, append-nil, append_assoc, arith, ltb, ◌==◌, if◌then◌else◌,
  ==_refl, Bool-cases, length, drop, keep, some_of, length-append, drop-append, length-drop, All,
  All-middle, codes, nat_eq, bytes_eq,
}
use mathlib.Core.Option.{some_inj, none-ne-some}
use drumlin.Event.{Event, make_event, application_threads_gone}
use drumlin.Threads.{
  Application, remove, undefined, thrown, removed, delete_thread, remove_thread, remove_threads,
  post,
}

abbrev others : ℕ → List ℕ → List ℕ
others p ps = keep (λ q. not (q == p)) ps

length-others : (p : ℕ) (ps : List ℕ) → length (others p ps) ≤ length ps
length-others p [] = omega arith
length-others p (q ∷ ps) = ground (arith, length-others p ps)

-- The list is as long after std::remove as before.
length-remove : (p : ℕ) (ps : List ℕ) → length (remove p ps).0 ≡ length ps
unfolding remove
length-remove p ps = omega (
  arith,
  length-append (others p ps) (drop (length (others p ps)) ps),
  length-drop (length (others p ps)) ps,
  length-others p ps,
)

keep-snoc :
    (p z : ℕ) (xs : List ℕ)
    → others p (xs ++ z ∷ []) ≡ others p xs ++ (if z == p then [] else z ∷ [])
keep-snoc p z [] = ground arith
keep-snoc p z (x ∷ xs) = ground (arith, keep-snoc p z xs)

drop-snoc : (n z : ℕ) (xs : List ℕ) → n ≤ length xs → drop n (xs ++ z ∷ []) ≡ drop n xs ++ z ∷ []
drop-snoc zero z xs h = refl
drop-snoc (suc n) z [] h = absurd (omega (arith, h))
drop-snoc (suc n) z (x ∷ xs) h = drop-snoc n z xs (omega arith)

drop_all : (n : ℕ) (xs : List ℕ) → length xs ≤ n → drop n xs ≡ []
drop_all zero [] h = refl
drop_all zero (x ∷ xs) h = absurd (omega arith)
drop_all (suc n) [] h = refl
drop_all (suc n) (x ∷ xs) h = drop_all n xs (omega arith)

-- A list whose last pointer is z.
abbrev pub EndsWith : ℕ → List ℕ → Type 0
EndsWith z ps = (ys : List ℕ) × (ps ≡ ys ++ z ∷ [])

ends-append :
    (z : ℕ) (ks xs : List ℕ) (n : ℕ) → n ≤ length xs → EndsWith z (ks ++ drop n (xs ++ z ∷ []))
ends-append z ks xs n h = (
  ks ++ drop n xs,
  ap (λ ys. ks ++ ys) (drop-snoc n z xs h) ∙ sym (append_assoc ks (drop n xs) (z ∷ [])),
)

ends-full :
    (z : ℕ) (ks xs : List ℕ)
    → length xs ≤ length ks
    → EndsWith z ((ks ++ z ∷ []) ++ drop (length (ks ++ z ∷ [])) (xs ++ z ∷ []))
ends-full z ks xs h = (
  ks,
  rw
      (drop_all (length (ks ++ z ∷ [])) (xs ++ z ∷ [])
        (omega (arith, h, length-append ks (z ∷ []), length-append xs (z ∷ []))))
      (append-nil (ks ++ z ∷ [])),
)

-- The last pointer of the list stays the last, whatever is removed.
remove-snoc : (p z : ℕ) (xs : List ℕ) → EndsWith z (remove p (xs ++ z ∷ [])).0
unfolding remove
remove-snoc p z xs = elim (Bool-cases (z == p)) [
  | inl e ↦
      let kept : others p (xs ++ z ∷ []) ≡ others p xs =
        keep-snoc p z xs ∙ rw e (append-nil (others p xs)) in
      rw kept (ends-append z (others p xs) xs (length (others p xs)) (length-others p xs))
  | inr e ↦
      let kept : others p (xs ++ z ∷ []) ≡ others p xs ++ z ∷ [] = keep-snoc p z xs ∙ rw e in
      let short = length-others p xs in
      let more = length-append (others p xs) (z ∷ []) in
      rw kept (elim (Bool-cases (ltb (length (others p xs)) (length xs))) [
        | inl f ↦
            ends-append z (others p xs ++ z ∷ []) xs (length (others p xs ++ z ∷ []))
              (ground (arith, f, more))
        | inr f ↦ ends-full z (others p xs) xs (ground (arith, f, short))
      ])
]

others-kept : (p : ℕ) (xs : List ℕ) → some_of (λ q. q == p) xs ≡ false → others p xs ≡ xs
others-kept p [] h = refl
others-kept p (x ∷ xs) h = ground (arith, others-kept p xs)

remove-last :
    (p : ℕ) (xs : List ℕ)
    → some_of (λ q. q == p) xs ≡ false
    → (remove p (xs ++ p ∷ [])).0 ≡ xs ++ p ∷ []
unfolding remove
remove-last p xs h =
    let kept : others p (xs ++ p ∷ []) ≡ xs =
      keep-snoc p p xs ∙ rw (==_refl p) (append-nil (others p xs)) ∙ others-kept p xs h in
    rw kept (ap (λ ys. xs ++ ys) (drop-append xs (p ∷ [])))

others-none : (p : ℕ) (xs : List ℕ) → length (others p xs) ≡ 0 → All (λ q. q ≡ p) xs
others-none p [] h = tt
others-none p (x ∷ xs) h = ground (arith, h, others-none p xs)

others-some :
    (p : ℕ) (xs : List ℕ) → length (others p xs) ≢ 0 → some_of (λ q. not (q == p)) xs ≡ true
others-some p [] h = absurd (h refl)
others-some p (x ∷ xs) h = ground (arith, h, others-some p xs)

abbrev pub gone : Event
gone = make_event application_threads_gone (codes "threadsGone") 0

-- What a removal leaves of the application.
abbrev pub IsDeleted : ℕ → Application → Application → Type 0
IsDeleted p app after =
    (after.deleted ≡ app.deleted ++ p ∷ [])
    × (after.threads ≡ (remove p app.threads).0)
    × (((All (λ q. q ≡ p) app.threads) × (after.queue ≡ app.queue ++ gone ∷ []))
        ⊎ ((some_of (λ q. not (q == p)) app.threads ≡ true) × (after.queue ≡ app.queue)))

delete_thread-IsDeleted : (p : ℕ) (app : Application) → IsDeleted p app (delete_thread p app)
unfolding delete_thread remove post
delete_thread-IsDeleted p app = elim (Bool-cases (length (others p app.threads) == 0)) [
  | inl e ↦ rw e (refl, refl, inl (others-none p app.threads (ground (arith, e)), refl))
  | inr e ↦ rw e (refl, refl, inr (others-some p app.threads (ground (arith, e)), refl))
]

thread_at-delete_thread :
    (p : ℕ) (app : Application) → (delete_thread p app).thread_at ≡ app.thread_at
unfolding delete_thread post
thread_at-delete_thread p app = elim (Bool-cases ((remove p app.threads).1 == 0)) [
  | inl e ↦ rw e
  | inr e ↦ rw e
]

-- removeThread reads a deleted thread, which is undefined; or throws, for a thread that runs and is
-- not terminated; or deletes the thread, and then it tells the application that the threads are gone
-- exactly if the list held no pointer but this one. The list is as long afterwards as it was.
pub remove_thread_cases :
    (p : ℕ) (app : Application)
    → let t = app.thread_at p in
      ((some_of (λ q. q == p) app.deleted ≡ true) × (remove_thread p app ≡ undefined))
      ⊎ ((t.ready ≡ true) × (t.terminated ≡ false) × (remove_thread p app ≡ thrown))
      ⊎ ((after : Application) × (remove_thread p app ≡ removed after)
          × IsDeleted p app after
          × (length after.threads ≡ length app.threads))
unfolding remove_thread
remove_thread_cases p app = elim (Bool-cases (some_of (λ q. q == p) app.deleted)) [
  | inl e ↦ inl (e, rw (e, remove_thread))
  | inr e ↦ elim (Bool-cases ((app.thread_at p).ready && not (app.thread_at p).terminated)) [
    | inl f ↦ inr (inl (ground (arith, f), ground (arith, f), rw (e, f, remove_thread)))
    | inr f ↦
        let facts = delete_thread-IsDeleted p app in
        inr (
          inr (
            delete_thread p app,
            rw (e, f, remove_thread),
            facts,
            ap length facts.1 ∙ length-remove p app.threads,
          ))
  ]
]

-- A thread that is neither deleted nor running is deleted, and no thread is changed.
pub remove_thread_done :
    (p : ℕ) (app : Application)
    → some_of (λ q. q == p) app.deleted ≡ false
    → (app.thread_at p).ready ≡ false
    → (remove_thread p app ≡ removed (delete_thread p app))
      × IsDeleted p app (delete_thread p app)
      × ((delete_thread p app).thread_at ≡ app.thread_at)
unfolding remove_thread
remove_thread_done p app alive rests =
    (rw (alive, rests, remove_thread), delete_thread-IsDeleted p app, thread_at-delete_thread p app)

-- A thread whose pointer stands in the last place of the list only leaves the list as it is when it is
-- deleted: the pointer to the deleted thread stays.
delete_thread_dangling :
    (p : ℕ) (xs : List ℕ) (app : Application)
    → app.threads ≡ xs ++ p ∷ []
    → some_of (λ q. q == p) xs ≡ false
    → ((delete_thread p app).threads ≡ app.threads)
      × ((delete_thread p app).deleted ≡ app.deleted ++ p ∷ [])
delete_thread_dangling p xs app e lacks =
    let (deleted, threads, _) = delete_thread-IsDeleted p app in
    (threads ∙ ap (λ ps. (remove p ps).0) e ∙ remove-last p xs lacks ∙ sym e, deleted)

-- Whatever threads are removed, as long as the thread in the last place of the list is none of
-- them, the application is never told that the threads are gone, and the last place keeps its
-- pointer.
pub remove_threads_silent :
    (ps xs : List ℕ) (z : ℕ) (app after : Application)
    → app.threads ≡ xs ++ z ∷ []
    → All (λ p. p ≢ z) ps
    → remove_threads ps app ≡ some after
    → (after.queue ≡ app.queue) × EndsWith z after.threads
unfolding remove_threads
remove_threads_silent [] xs z app after e all r =
    let same = some_inj.0 r in
    (
      ap (λ (a : Application). a.queue) (sym same),
      (xs, ap (λ (a : Application). a.threads) (sym same) ∙ e),
    )
remove_threads_silent (p ∷ ps) xs z app after e all r = elim (remove_thread_cases p app) [
  | inl (_, q) ↦
      let step : remove_threads (p ∷ ps) app ≡ none = rw (q, remove_threads) in
      absurd (none-ne-some after (sym step ∙ r))
  | inr (inl (_, _, q)) ↦
      let step : remove_threads (p ∷ ps) app ≡ remove_threads ps app = rw (q, remove_threads) in
      remove_threads_silent ps xs z app after e all.1 (sym step ∙ r)
  | inr (inr (next, q, (_, threads, told), _)) ↦
      let step : remove_threads (p ∷ ps) app ≡ remove_threads ps next = rw (q, remove_threads) in
      let (ys, f) = remove-snoc p z xs in
      let (queue, ends) =
        remove_threads_silent ps ys z next after (threads ∙ ap (λ qs. (remove p qs).0) e ∙ f) all.1
          (sym step ∙ r) in
      elim told [
        | inl (only, _) ↦
            absurd (all.0 (sym (All-middle _ xs z [] (subst (All (λ q. q ≡ p)) e only))))
        | inr (_, kept) ↦ (queue ∙ kept, ends)
      ]
]
