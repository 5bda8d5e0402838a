-- ===== src/Accessor.antt =====
-- thread_accessor.h and thread_accessor.cpp: the choice of threads by name, type or worker. `all` is the
-- list m_threads of the application and `thread_at` its memory; pointers have the order of their
-- addresses. An iterator range over two lists is undefined.
-- `typed` is for threads that have a worker, and it and `named` for a list without a deleted thread.
pub mod Selecting
pub mod Sending
mod Tests
use drumlin.Prelude.{
  ℕ, zero, suc, ◌+◌, Bool, true, false, not, ◌&&◌, ◌||◌, Option, none, some, List, [], ◌∷◌, ltb,
  ◌==◌, if◌then◌else◌, length, get_elem?, keep, some_of, Bytes, eq_bytes, nat_eq, bytes_eq,
}
use drumlin.Event.{Event}
use drumlin.Threads.{Thread, start, terminate, post_thread}

pub record ThreadAccessor : Type 0 where
  pub named_threads : List ℕ
  pub typed_threads : List ℕ
  pub flag_all_name : Bool
  pub flag_all_type : Bool
  pub name : Bytes
  pub type_name : Bytes
  pub worker : ℕ
  pub selection : List ℕ

-- clear
pub clear : ThreadAccessor → ThreadAccessor
clear self = record self {
  selection = [];
  flag_all_name = false;
  flag_all_type = false;
  name = [];
  type_name = [];
  worker = 0;
}

-- The constructor.
pub empty_accessor : ThreadAccessor
unfolding clear
empty_accessor = clear (record {
  named_threads = [];
  typed_threads = [];
  flag_all_name = false;
  flag_all_type = false;
  name = [];
  type_name = [];
  worker = 0;
  selection = [];
})

-- std::set_intersection, with a bound on the steps that its two lists need.
pub set_intersection : ℕ → List ℕ → List ℕ → List ℕ
set_intersection zero xs ys = []
set_intersection (suc fuel) [] ys = []
set_intersection (suc fuel) (x ∷ xs) [] = []
set_intersection (suc fuel) (x ∷ xs) (y ∷ ys) =
    let skip_left = set_intersection fuel xs (y ∷ ys) in
    let skip_right = set_intersection fuel (x ∷ xs) ys in
    let both = set_intersection fuel xs ys in
    if ltb x y then skip_left else if ltb y x then skip_right else x ∷ both

unfoldable pub all_names : Bool → ThreadAccessor → ThreadAccessor
all_names b self = record self { flag_all_name = b }

unfoldable pub all_types : Bool → ThreadAccessor → ThreadAccessor
all_types b self = record self { flag_all_type = b }

module _ (all : List ℕ) (thread_at : ℕ → Thread) where
  -- named
  pub named : Bytes → ThreadAccessor → ThreadAccessor
  named name self = record self {
    named_threads = keep (λ p. eq_bytes (thread_at p).task name) all;
    flag_all_name = false;
    name = name;
  }

  -- typed; `to_string` is the name of a ThreadType.
  pub typed : (ℕ → Bytes) → ℕ → ThreadAccessor → ThreadAccessor
  typed to_string worker_type self = record self {
    typed_threads = keep (λ p. (thread_at p).worker_type == worker_type) all;
    flag_all_type = false;
    type_name = to_string worker_type;
  }

  -- getNamed
  pub get_named : ThreadAccessor → ThreadAccessor
  get_named self = record self {
    selection = if self.flag_all_name then all else self.named_threads;
  }

  -- getTyped
  unfoldable pub get_typed : ThreadAccessor → ThreadAccessor
  get_typed self = record self {
    selection = if self.flag_all_type then all else self.typed_threads;
  }

  -- selectBoth; with one flag alone the range of the types joins iterators of two lists.
  pub select_both : ThreadAccessor → Option ThreadAccessor
  unfolding set_intersection
  select_both self =
      if self.flag_all_name && self.flag_all_type
      then some (record self { selection = all })
      else if self.flag_all_name || self.flag_all_type
      then none
      else some (record self { selection = set_intersection (length all + length all) all all })

-- Whether a list has a pointer to a thread that was deleted, which the application's list may keep.
unfoldable pub has_deleted : List ℕ → List ℕ → Bool
has_deleted deleted all = some_of (λ p. some_of (λ q. q == p) deleted) all

-- getWorkered; it reads each thread of the list, and the read of a deleted one is undefined.
pub get_workered : List ℕ → List ℕ → (ℕ → Thread) → ℕ → ThreadAccessor → Option ThreadAccessor
unfolding has_deleted
get_workered deleted all thread_at worker self =
    if has_deleted deleted all
    then none
    else some (record self {
      selection = keep (λ p. (thread_at p).worker == worker) all;
      worker = worker;
    })

-- selectionEmpty
pub selection_empty : ThreadAccessor → Bool
selection_empty self = length self.selection == 0

-- first; none is the exception.
pub first : ThreadAccessor → Option ℕ
unfolding selection_empty
first self = if selection_empty self then none else get_elem? self.selection 0

-- The loop of operator(), for what a functor does to a thread.
pub apply_to : (Thread → Thread) → List ℕ → (ℕ → Thread) → ℕ → Thread
apply_to functor [] thread_at = thread_at
apply_to functor (p ∷ ps) thread_at =
    apply_to functor ps (λ q. if q == p then functor (thread_at p) else thread_at q)

-- operator(); none is the exception.
pub apply : (Thread → Thread) → Bool → ThreadAccessor → (ℕ → Thread) → Option (ℕ → Thread)
unfolding selection_empty apply_to
apply functor throw_if_empty self thread_at =
    if throw_if_empty && selection_empty self
    then none
    else some (apply_to functor self.selection thread_at)

-- StartThread::operator()
pub start_thread : Thread → Thread
unfolding start
start_thread t = if not t.ready then start t else t

-- What signalTermination does: it is undefined, it throws, or it returns.
pub data Signalled : Type 0 where
  undefined thrown : Signalled
  signalled : (ℕ → Thread) → Signalled

-- signalTermination, on what getWorkered gave.
pub terminate_first : (ℕ → Thread) → Option ThreadAccessor → Signalled
unfolding first terminate
terminate_first thread_at none = undefined
terminate_first thread_at (some access) = elim (first access) [
  | none ↦ thrown
  | some p ↦
      let t = thread_at p in
      signalled (λ q. if q == p then (if not t.terminated then terminate t else t) else thread_at q)
]

-- ThreadWorker::signalTermination
pub signal_termination : List ℕ → List ℕ → (ℕ → Thread) → ℕ → Signalled
unfolding get_workered empty_accessor terminate_first
signal_termination deleted all thread_at worker =
    terminate_first thread_at (get_workered deleted all thread_at worker empty_accessor)

-- What SendEvent::operator() does to the thread.
pub send_event : Event → Thread → Thread
unfolding post_thread
send_event event t = post_thread event t

-- event::send. Where Debug() logs, it prints the thread, and with it the worker, through a pointer that may be
-- null: that is undefined.
pub send : Bool → ℕ → Event → (ℕ → Thread) → Option (ℕ → Thread)
unfolding post_thread
send debug target event thread_at =
    if debug && (thread_at target).worker == 0
    then none
    else some (λ q. if q == target then post_thread event (thread_at target) else thread_at q)

-- event::post, on what getWorkered gave.
pub post_selected : Option ThreadAccessor → (ℕ → Thread) → Event → Option (ℕ → Thread)
unfolding selection_empty apply send_event
post_selected none thread_at event = none
post_selected (some access) thread_at event =
    if selection_empty access
    then some thread_at
    else apply (send_event event) true access thread_at

-- event::post, to a worker. Where Debug() logs, the null pointer has its type printed, either for want of a
-- thread or with each thread that the event is sent to: that is undefined.
pub post_worker : Bool → List ℕ → List ℕ → (ℕ → Thread) → ℕ → Event → Option (ℕ → Thread)
unfolding get_workered empty_accessor post_selected
post_worker debug deleted all thread_at worker event =
    if debug && worker == 0
    then none
    else post_selected (get_workered deleted all thread_at worker empty_accessor) thread_at event
