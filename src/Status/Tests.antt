-- ===== src/Status/Tests.antt =====
-- Concrete runs of the theorems of the status.
use drumlin.Prelude.{
  ℕ, ◌≡◌, refl, true, false, none, List, [], ◌∷◌, ◌++◌, Bytes, codes, nat_eq, bytes_eq,
}
use drumlin.Threads.{Thread, Application}
use drumlin.Running.{close_run}
use drumlin.Status.{Json, Members, application_status}
use drumlin.Status.Workers.{application_status-close_run}

-- Values as the list of the bytes that stand in them.
joined_values : List Bytes → Bytes
joined_values [] = []
joined_values (v ∷ values) = v ++ joined_values values

joined_members : List (Bytes × Bytes) → Bytes
joined_members [] = []
joined_members ((k, v) ∷ obj) = k ++ (v ++ joined_members obj)

abbrev flat_json : Json
flat_json = record {
  Value = Bytes;
  number = λ n. n ∷ [];
  text = λ s. s;
  array = joined_values;
  object = joined_members;
}

abbrev type_name : ℕ → Bytes
type_name t = codes "worker"

abbrev own : ℕ → Members flat_json → Members flat_json
own w status = status

abbrev running_thread : Thread
running_thread = record {
  task = codes "task";
  worker = 3;
  worker_type = 1;
  ready = true;
  deleting = false;
  terminated = false;
  queue = [];
}

abbrev two_threads : Application
two_threads = record {
  threads = 10 ∷ 20 ∷ [];
  thread_at = λ p. running_thread;
  deleted = [];
  terminated = false;
  queue = [];
}

application_status-close_run_example :
    application_status flat_json type_name own (close_run 20 two_threads) [] ≡ none
application_status-close_run_example =
    application_status-close_run flat_json type_name own 20 two_threads [] refl
