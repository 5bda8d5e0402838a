-- ===== src/Threads.antt =====
-- thread.h, thread.cpp, application.h and application.cpp: the threads of the application and its list
-- of them. A thread stands at an address, in the memory `thread_at`, and `deleted` records each
-- `delete`, in order; a read of a deleted thread is undefined. `queue` is the queue of the
-- application. std::remove moves what it keeps to the front and leaves the places behind as they are.
-- The boost thread that start creates runs elsewhere, and the locks and the log are left out.
pub mod Removing
use drumlin.Prelude.{
  ℕ, Bool, true, false, not, ◌&&◌, Option, none, some, List, [], ◌∷◌, ◌++◌, ◌==◌, if◌then◌else◌,
  length, drop, keep, some_of, Bytes, codes, nat_eq, bytes_eq,
}
use drumlin.Event.{
  EventType, Event, make_event, thread_notify, thread_remove, application_threads_gone,
}

-- Thread; the worker is its address, 0 where there is none, and a number for its type.
pub record Thread : Type 0 where
  pub task : Bytes
  pub worker : ℕ
  pub worker_type : ℕ
  pub ready : Bool
  pub deleting : Bool
  pub terminated : Bool
  pub queue : List Event

pub record Application : Type 0 where
  pub threads : List ℕ
  pub thread_at : ℕ → Thread
  pub deleted : List ℕ
  pub terminated : Bool
  pub queue : List Event

-- The constructor of Thread.
unfoldable pub make_thread : Bytes → ℕ → ℕ → Thread
make_thread task worker worker_type = record {
  task = task;
  worker = worker;
  worker_type = worker_type;
  ready = false;
  deleting = false;
  terminated = false;
  queue = [];
}

-- Thread::terminate
unfoldable pub terminate : Thread → Thread
terminate t = if t.terminated then t else record t { terminated = true }

-- Thread::start, without the boost thread.
unfoldable pub start : Thread → Thread
start t = if t.ready then t else record t { ready = true }

-- Thread::post
unfoldable pub post_thread : Event → Thread → Thread
post_thread event t = record t { queue = t.queue ++ event ∷ [] }

-- A change of the thread at one address.
unfoldable pub set_thread : ℕ → Thread → Application → Application
set_thread p t app = record app { thread_at = λ q. if q == p then t else app.thread_at q }

-- Application::post, and event::punt, which posts to the application.
unfoldable pub post : Event → Application → Application
post event app = record app { queue = app.queue ++ event ∷ [] }

-- Thread::quit
unfoldable pub quit_thread : ℕ → Application → Application
unfolding post make_event
quit_thread p app = post (make_event thread_remove (codes "removeThread") p) app

-- Application::addThread
unfoldable pub add_thread : ℕ → Bool → Application → Application
unfolding set_thread post_thread start make_event
add_thread p start_work app =
    let pushed = record app { threads = app.threads ++ p ∷ [] } in
    let notify = make_event thread_notify (codes "beforeStart") 0 in
    if start_work
    then set_thread p (start (post_thread notify (app.thread_at p))) pushed
    else pushed

-- std::remove, with the number of places before the iterator that it returns.
unfoldable pub remove : ℕ → List ℕ → List ℕ × ℕ
remove p ps = let kept = keep (λ q. not (q == p)) ps in (kept ++ drop (length kept) ps, length kept)

-- What removeThread does: it reads a deleted thread, it throws, or it returns.
pub data Removed : Type 0 where
  undefined thrown : Removed
  removed : Application → Removed

-- removeThread past its test.
unfoldable pub delete_thread : ℕ → Application → Application
unfolding remove post make_event
delete_thread p app =
    let (threads, n) = remove p app.threads in
    let after = record app { threads = threads; deleted = app.deleted ++ p ∷ [] } in
    if n == 0
    then post (make_event application_threads_gone (codes "threadsGone") 0) after
    else after

-- Application::removeThread
unfoldable pub remove_thread : ℕ → Application → Removed
unfolding delete_thread
remove_thread p app =
    let t = app.thread_at p in
    if some_of (λ q. q == p) app.deleted
    then undefined
    else if t.ready && not t.terminated
    then thrown
    else removed (delete_thread p app)

-- The removals of several threads, one after the other; a throw changes nothing.
pub remove_threads : List ℕ → Application → Option Application
unfolding remove_thread
remove_threads [] app = some app
remove_threads (p ∷ ps) app = elim (remove_thread p app) [
  | undefined ↦ none
  | thrown ↦ remove_threads ps app
  | removed after ↦ remove_threads ps after
]
