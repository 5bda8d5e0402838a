-- ===== src/Status/Workers.antt =====
-- application.cpp, getStatus: the reports of the threads, and the threads for which there is none.
use drumlin.Prelude.{
  ℕ, ◌≡◌, refl, sym, ap, ◌∙◌, subst, inl, inr, Bool, true, none, some, List, [], ◌∷◌, ◌++◌, map,
  append-nil, append_assoc, arith, ◌==◌, ◌||◌, if◌then◌else◌, ==_iff, ==_refl, Bool-cases, some_of,
  Bytes, codes, nat_eq, bytes_eq, lookup, place, insert,
}
use drumlin.Threads.{Thread, Application}
use drumlin.Running.{close_run, let_go}
use drumlin.Status.{
  Json, Members, put, worker_report, write_to_object, status_loop, application_status,
}

let_go_worker : (t : Thread) → (let_go t).worker ≡ 0
unfolding let_go
let_go_worker t = ground arith

-- Behind the end of run, a thread has no worker.
closed_worker : (p : ℕ) (app : Application) → ((close_run p app).thread_at p).worker ≡ 0
unfolding close_run
closed_worker p app = rw (==_refl p) (let_go_worker (app.thread_at p))

some_of_listed :
    (test : ℕ → Bool) (p : ℕ) (threads : List ℕ)
    → test p ≡ true
    → some_of (λ q. q == p) threads ≡ true
    → some_of test threads ≡ true
some_of_listed test p [] h k = cc
some_of_listed test p (q ∷ threads) h k = elim (Bool-cases (q == p)) [
  | inl e ↦
      let at : test q ≡ true = subst (λ r. test r ≡ true) (sym ((==_iff q p).0 e)) h in rw at refl
  | inr e ↦
      let later : some_of (λ r. r == p) threads ≡ true = ground (arith, k, e) in
      let found = some_of_listed test p threads h later in ground (arith, found)
]

module _ (json : Json) (type_name : ℕ → Bytes) (own : ℕ → Members json → Members json) where
  open json use {Value, number, text, array, object}

  -- What is reported of a thread.
  pub type_entry : Application → ℕ → Value
  type_entry app p = object ((codes "type", text (type_name (app.thread_at p).worker_type)) ∷ [])

  -- What the workers add themselves.
  pub own_all : Application → List ℕ → Members json → Members json
  own_all app [] status = status
  own_all app (p ∷ threads) status = own_all app threads (own (app.thread_at p).worker status)

  abbrev pub is_lost : Application → ℕ → Bool
  is_lost app p = some_of (λ q. q == p) app.deleted || (app.thread_at p).worker == 0

  entry_lem :
      (app : Application) (p : ℕ)
      → object (write_to_object json (type_name (app.thread_at p).worker_type) [])
        ≡ type_entry app p
  unfolding write_to_object worker_report put insert place lookup type_entry
  entry_lem app p = refl

  status_loop_lem :
      (app : Application) (threads : List ℕ) (values : List Value) (status : Members json)
      → status_loop json type_name own app threads values status ≡ (
          if some_of (is_lost app) threads
          then none
          else some (values ++ map (type_entry app) threads, own_all app threads status))
  unfolding status_loop own_all
  status_loop_lem app [] values status = ap (λ vs. some (vs, status)) (sym (append-nil values))
  status_loop_lem app (p ∷ threads) values status = elim (Bool-cases (is_lost app p)) [
    | inl e ↦ rw (e, status_loop) refl
    | inr e ↦
        rw
          (
            e,
            status_loop,
            entry_lem app p,
            status_loop_lem app threads (values ++ type_entry app p ∷ [])
                (own (app.thread_at p).worker status),
            append_assoc values (type_entry app p ∷ []) (map (type_entry app) threads),
          )
          refl
  ]

  -- Application::getStatus is undefined exactly where a thread of the list was deleted or has no worker. Otherwise it puts
  -- the types of the workers under "threads", in the order of the list, into what the workers made of
  -- the status.
  pub application_status_lem :
      (app : Application) (status : Members json)
      → application_status json type_name own app status ≡ (
          if some_of (is_lost app) app.threads
          then none
          else some (
              put json
                (codes "threads")
                (array (map (type_entry app) app.threads))
                (own_all app app.threads status)))
  unfolding application_status
  application_status_lem app status = elim (Bool-cases (some_of (is_lost app) app.threads)) [
    | inl e ↦ rw (application_status, status_loop_lem app app.threads [] status, e) refl
    | inr e ↦ rw (application_status, status_loop_lem app app.threads [] status, e) refl
  ]

  -- Just after a thread that stands in the application's list has come to the end of run, getStatus is
  -- undefined: it goes through the pointer to the worker, which run has reset.
  pub application_status-close_run :
      (p : ℕ) (app : Application) (status : Members json)
      → some_of (λ q. q == p) app.threads ≡ true
      → application_status json type_name own (close_run p app) status ≡ none
  unfolding close_run
  application_status-close_run p app status h =
      let after = close_run p app in
      let gone : is_lost after p ≡ true =
        let no_worker = (==_iff ((after.thread_at p).worker) 0).1 (closed_worker p app) in
        ground (arith, no_worker) in
      application_status_lem after status
      ∙ rw (some_of_listed (is_lost after) p app.threads gone h) refl
