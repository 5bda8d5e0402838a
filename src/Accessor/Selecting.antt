-- ===== src/Accessor/Selecting.antt =====
-- thread_accessor.cpp and thread_worker.cpp: which threads are chosen and what is done to them.
use drumlin.Prelude.{
  ℕ, zero, suc, ◌+◌, ◌≤◌, ◌≡◌, refl, ap, ◌∙◌, ◌≢◌, ◌⊎◌, inl, inr, Bool, true, false, not, ◌&&◌,
  none, some, List, [], ◌∷◌, ◌++◌, arith, ◌==◌, if◌then◌else◌, ==_iff, ==_refl, Bool-cases, length,
  keep, some_of, All, All-imp, Bytes, eq_bytes, nat_eq, bytes_eq,
}
use drumlin.Threads.{Thread, start, terminate}
use drumlin.Accessor.{
  ThreadAccessor, empty_accessor, set_intersection, named, typed, get_workered, get_named,
  select_both, selection_empty, first, apply_to, apply, start_thread, signal_termination,
  terminate_first, has_deleted, thrown, signalled,
}

set_intersection_self :
    (fuel : ℕ) (xs : List ℕ) → length xs ≤ fuel → set_intersection fuel xs xs ≡ xs
unfolding set_intersection
set_intersection_self zero [] h = refl
set_intersection_self zero (x ∷ xs) h = absurd (omega arith)
set_intersection_self (suc fuel) [] h = refl
set_intersection_self (suc fuel) (x ∷ xs) h =
    ground (arith, set_intersection_self fuel xs (omega arith))

module _ (all : List ℕ) (thread_at : ℕ → Thread) where
  -- selectBoth never intersects: with both flags set, and with both clear, it selects all threads of
  -- the application, whatever names and types were asked for, and with one flag alone it is undefined.
  select_both_cases :
      (self : ThreadAccessor)
      → ((self.flag_all_name ≡ self.flag_all_type)
          × (select_both all thread_at self ≡ some (record self { selection = all })))
        ⊎ ((self.flag_all_name ≢ self.flag_all_type) × (select_both all thread_at self ≡ none))
  unfolding select_both
  select_both_cases self =
      ground (arith, set_intersection_self (length all + length all) all (omega arith))

  -- A request for the threads of a name and a type, each flag clear, selects all threads.
  pub select_both-typed-named :
      (to_string : ℕ → Bytes) (name : Bytes) (worker_type : ℕ) (self : ThreadAccessor)
      → (s : ThreadAccessor) × (select_both all thread_at
            (typed all thread_at to_string worker_type (named all thread_at name self))
          ≡ some s)
        × (s.selection ≡ all)
  unfolding named typed
  select_both-typed-named to_string name worker_type self =
      let self' = typed all thread_at to_string worker_type (named all thread_at name self) in
      elim (select_both_cases self') [
        | inl (_, e) ↦ (record self' { selection = all }, e, refl)
        | inr (differ, _) ↦ absurd (differ refl)
      ]

length-zero {ℓ} : {A : Type ℓ} (xs : List A) → length xs ≡ 0 → xs ≡ []
length-zero [] h = refl
length-zero (x ∷ xs) h = absurd (omega arith)

-- The first element that passes a test, if there is one.
keep_first :
    (p : ℕ → Bool) (xs : List ℕ)
    → ((keep p xs ≡ []) × All (λ x. p x ≡ false) xs)
      ⊎ ((ys : List ℕ) × (b : ℕ) × (zs rest : List ℕ) × (xs ≡ ys ++ b ∷ zs)
          × (p b ≡ true)
          × All (λ x. p x ≡ false) ys
          × (keep p xs ≡ b ∷ rest))
keep_first p [] = inl (refl, tt)
keep_first p (x ∷ xs) = elim (Bool-cases (p x)) [
  | inl hit ↦ inr ([], x, xs, keep p xs, refl, hit, tt, rw hit)
  | inr miss ↦ elim (keep_first p xs) [
    | inl (e, all) ↦ inl (rw (miss, e), (miss, all))
    | inr (ys, b, zs, rest, e, hit, all, kept) ↦
        inr (x ∷ ys, b, zs, rest, ap (◌∷◌ x) e, hit, (miss, all), rw (miss, kept))
  ]
]

-- A functor that has no effect the second time is applied to the threads of the list alone.
apply_to-some_of :
    (f : Thread → Thread) (ps : List ℕ) (thread_at : ℕ → Thread) (q : ℕ)
    → ((t : Thread) → f (f t) ≡ f t)
    → apply_to f ps thread_at q
      ≡ (if some_of (λ p. p == q) ps then f (thread_at q) else thread_at q)
unfolding apply_to
apply_to-some_of f [] thread_at q idem = refl
apply_to-some_of f (p ∷ ps) thread_at q idem =
    apply_to-some_of f ps _ q idem ∙ ground (arith, ==_iff p q, ==_iff q p, idem (thread_at q))

start_thread_again : (t : Thread) → start_thread (start_thread t) ≡ start_thread t
unfolding start_thread start
start_thread_again t = ground arith

some_of-keep :
    (p : ℕ → Bool) (q : ℕ) (xs : List ℕ)
    → some_of (λ x. x == q) (keep p xs) ≡ (p q && some_of (λ x. x == q) xs)
some_of-keep p q [] = ground arith
some_of-keep p q (x ∷ xs) = ground (arith, some_of-keep p q xs, ==_iff x q)

-- StartThread applied to the threads of a name starts each thread of the application with that task,
-- and changes no other thread; if there is none it throws where that was asked for.
apply-get_named :
    (all : List ℕ) (thread_at : ℕ → Thread) (name : Bytes) (throw_if_empty : Bool)
    (self : ThreadAccessor) (q : ℕ)
    → ((throw_if_empty ≡ true)
        × (keep (λ p. eq_bytes (thread_at p).task name) all ≡ [])
        × (apply start_thread throw_if_empty
              (get_named all thread_at (named all thread_at name self))
              thread_at
            ≡ none))
      ⊎ ((after : ℕ → Thread) × (apply start_thread throw_if_empty
              (get_named all thread_at (named all thread_at name self))
              thread_at
            ≡ some after)
          × (after q ≡ (
              if eq_bytes (thread_at q).task name && some_of (λ p. p == q) all
              then start_thread (thread_at q)
              else thread_at q)))
unfolding apply get_named named selection_empty
apply-get_named all thread_at name throw_if_empty self q =
    let chosen = keep (λ p. eq_bytes (thread_at p).task name) all in
    elim (Bool-cases (throw_if_empty && length chosen == 0)) [
      | inl e ↦ inl (ground (arith, e), length-zero chosen (ground (arith, e)), rw e)
      | inr e ↦ inr (
        apply_to start_thread chosen thread_at,
        rw e,
        apply_to-some_of start_thread chosen thread_at q start_thread_again
            ∙ rw (some_of-keep (λ p. eq_bytes (thread_at p).task name) q all),
      )
    ]

nonempty : (p : ℕ) (rest : List ℕ) → (length (p ∷ rest) == 0) ≡ false
nonempty p rest = ground arith

abbrev terminated_at : (ℕ → Thread) → ℕ → ℕ → Thread
terminated_at thread_at p q =
    let t = thread_at p in
    if q == p then (if not t.terminated then terminate t else t) else thread_at q

terminated_at-itself :
    (thread_at : ℕ → Thread) (p : ℕ) → (terminated_at thread_at p p).terminated ≡ true
unfolding terminate
terminated_at-itself thread_at p = ground (arith, ==_refl p)

-- With no deleted thread in the application's list, signalTermination terminates the first thread that has the
-- worker and changes no other thread; it throws if no thread has the worker.
signal_termination_cases :
    (deleted all : List ℕ) (thread_at : ℕ → Thread) (worker q : ℕ)
    → has_deleted deleted all ≡ false
    → (All (λ p. (thread_at p).worker ≢ worker) all
        × (signal_termination deleted all thread_at worker ≡ thrown))
      ⊎ ((xs ys : List ℕ) × (p : ℕ) × (after : ℕ → Thread) × (all ≡ xs ++ p ∷ ys)
          × ((thread_at p).worker ≡ worker)
          × All (λ x. (thread_at x).worker ≢ worker) xs
          × (signal_termination deleted all thread_at worker ≡ signalled after)
          × ((after p).terminated ≡ true)
          × ((q ≡ p) ⊎ (after q ≡ thread_at q)))
unfolding signal_termination terminate_first get_workered empty_accessor first selection_empty
    terminate
signal_termination_cases deleted all thread_at worker q alive =
    elim (keep_first (λ p. (thread_at p).worker == worker) all) [
      | inl (none_kept, all_miss) ↦ inl (
        All-imp _ _ all (λ x h. ground (arith, h, ==_iff (thread_at x).worker worker)) all_miss,
        rw (alive, signal_termination, none_kept) refl,
      )
      | inr (xs, p, ys, rest, split, hit, miss, kept) ↦ inr (
        xs,
        ys,
        p,
        terminated_at thread_at p,
        split,
        (==_iff (thread_at p).worker worker).0 hit,
        All-imp _ _ xs (λ x h. ground (arith, h, ==_iff (thread_at x).worker worker)) miss,
        rw (alive, signal_termination, kept, terminate_first, nonempty p rest) refl,
        terminated_at-itself thread_at p,
        ground (arith, ==_iff q p),
      )
    ]
