-- ===== src/Logging.antt =====
-- logger.h, logger.cpp, the logging macros of drumlin.h, and thread.cpp and event.cpp as far as they log: what a
-- call does to the mutexes and to the stream, as a list of acts, and the steps of threads that carry
-- such lists out next to one another. A thread's number is its address too. std::mutex is not recursive, and
-- std::recursive_mutex is. The texts of numbers and pointers, of an event and of a thread, and the id
-- of a thread are parameters or arguments; std::cerr takes what is written, in order.
pub mod Texts
pub mod Calls
pub mod Whole
pub mod Keeping
pub mod Jammed
pub mod Meeting
mod Tests
use drumlin.Prelude.{
  ℕ, ◌≡◌, Bool, true, false, not, ◌&&◌, ◌||◌, Option, none, some, List, [], ◌∷◌, ◌++◌, ◌==◌,
  if◌then◌else◌, Bytes, codes, nat_eq, bytes_eq,
}

-- The mutexes but for that of the logger: Thread::m_critical_section, a thread's m_mutex, and
-- ThreadWorker::m_critical_section.
pub data Mutex : Type 0 where
  critical workers : Mutex
  internal : ℕ → Mutex

pub same_mutex : Mutex → Mutex → Bool
same_mutex critical critical = true
same_mutex workers workers = true
same_mutex (internal t) (internal u) = t == u
same_mutex _ _ = false

pub data Act : Type 0 where
  lock_log unlock_log : Act
  lock unlock : Mutex → Act
  write : Bytes → Act

-- An integer, as its sign and its magnitude.
pub record Integer : Type 0 where
  pub is_negative : Bool
  pub magnitude : ℕ

-- What the overloads of operator<< are given. A thread comes with whether its std::thread is there, and
-- with its text.
pub data Operand : Type 0 where
  thread_id text what : Bytes → Operand
  integer : Integer → Operand
  character pointer : ℕ → Operand
  any : ℕ → Bytes → Operand
  thread : ℕ → Bool → Bytes → Operand

-- The places of value_types.
abbrev value_types : List ℕ
value_types = 0 ∷ 1 ∷ 2 ∷ 3 ∷ 4 ∷ 5 ∷ 6 ∷ 7 ∷ 8 ∷ 9 ∷ 10 ∷ 11 ∷ 12 ∷ []

-- stream_operator_impl, for each of the types.
pub write_any : List ℕ → ℕ → Bytes → List Act
write_any [] type value = []
write_any (t ∷ types) type value =
    let rest = write_any types type value in if t == type then write (b' ' ∷ value) ∷ rest else rest

-- What the stream operator of a thread locks: for getTask, getWorker and getType, isStarted, and
-- getBoostThread.
pub print_thread : ℕ → Bool → List Act
print_thread t has_thread =
    lock critical
    ∷ unlock critical
    ∷ lock (internal t)
    ∷ unlock (internal t)
    ∷ lock workers
    ∷ unlock workers
    ∷ lock (internal t)
    ∷ unlock (internal t)
    ∷ (if has_thread then lock (internal t) ∷ unlock (internal t) ∷ [] else [])

-- The calls that the threads make.
pub data Call : Type 0 where
  debugged criticised exclaimed : List Operand → Call
  making_event quitting : Bytes → ℕ → Call
  punting : Bytes → Call
  sending : Bytes → ℕ → Bool → Bytes → Call
  terminating : Bytes → ℕ → Call
  starting : ℕ → Call

-- Every call but a Critical() without LOGLOCK.
unfoldable pub TakesMutex : Call → Type 0
TakesMutex (exclaimed operands) = ⊥
TakesMutex _ = Unit

module _ (show : Integer → Bytes) (show_pointer : ℕ → Bytes) (show_id : ℕ → Bytes) where
  -- logger::operator<<
  pub put : Operand → List Act
  unfolding write_any print_thread
  put (thread_id id) = write (b' ' ∷ id) ∷ []
  put (text str) = write (b' ' ∷ str) ∷ []
  put (what str) = write (b' ' ∷ str) ∷ []
  put (integer i) = write (b' ' ∷ show i) ∷ []
  put (character c) = write (b' ' ∷ c ∷ []) ∷ []
  put (pointer ptr) = write (b' ' ∷ show_pointer ptr) ∷ []
  put (any type value) = write_any value_types type value
  put (thread t has_thread str) = print_thread t has_thread ++ write (b' ' ∷ str) ∷ []

  pub put_all : List Operand → List Act
  unfolding put
  put_all [] = []
  put_all (o ∷ operands) = put o ++ put_all operands

  -- A logger from its constructor to its destructor, in thread p.
  pub log : ℕ → List Operand → List Act
  unfolding put_all
  log p operands = write (show_id p ++ codes "::") ∷ (put_all operands ++ write (b'\n' ∷ []) ∷ [])

  -- Critical(), which takes no mutex.
  pub log_critical : ℕ → List Operand → List Act
  unfolding log
  log_critical p operands = log p (text (codes "********") ∷ operands)

  -- LOGLOCK with Critical().
  pub log_locked : ℕ → List Operand → List Act
  unfolding log_critical
  log_locked p operands = lock_log ∷ (log_critical p operands ++ unlock_log ∷ [])

  module _ (debug : Bool) where
    pub log_debug : ℕ → List Operand → List Act
    unfolding log
    log_debug p operands = lock_log ∷ ((if debug then log p operands else []) ++ unlock_log ∷ [])

    -- event::punt
    pub punt : ℕ → Bytes → List Act
    unfolding log_debug
    punt p pevent =
        log_debug p (
          text (codes "punting")
          ∷ text pevent
          ∷ text (codes "to")
          ∷ text (codes "application")
          ∷ [])

    -- event::send, up to the queue of the thread.
    pub send : ℕ → Bytes → ℕ → Bool → Bytes → List Act
    unfolding log_debug
    send p pevent target has_thread str = log_debug p (
        text (codes "sending")
        ∷ text pevent
        ∷ text (codes "to")
        ∷ thread target has_thread str
        ∷ [])

    -- What the constructor of an event logs.
    pub make_event : ℕ → Bytes → ℕ → List Act
    unfolding log_debug
    make_event p pevent address = log_debug p (
        text (codes "new.C")
        ∷ text (codes "init")
        ∷ text pevent
        ∷ text (codes ":")
        ∷ pointer address
        ∷ [])

    -- Thread::quit, of thread p itself.
    pub quit : ℕ → Bytes → ℕ → List Act
    unfolding make_event punt
    quit p pevent address =
        lock (internal p)
        ∷ (make_event p pevent address ++ (punt p pevent ++ unlock (internal p) ∷ []))

    -- Thread::terminate, of thread t.
    pub terminate : ℕ → Bytes → ℕ → List Act
    unfolding log_debug
    terminate p file t =
        log_debug p (text file ∷ text (codes "terminate") ∷ text (codes ":") ∷ pointer t ∷ [])
        ++ lock (internal t) ∷ unlock (internal t) ∷ []

    -- Thread::start, of thread t.
    pub start : ℕ → List Act
    start t = lock critical ∷ lock (internal t) ∷ unlock (internal t) ∷ unlock critical ∷ []

    pub perform : ℕ → Call → List Act
    unfolding log_debug log_critical log_locked make_event punt send quit terminate start
    perform p (debugged operands) = log_debug p operands
    perform p (criticised operands) = log_locked p operands
    perform p (exclaimed operands) = log_critical p operands
    perform p (making_event pevent address) = make_event p pevent address
    perform p (punting pevent) = punt p pevent
    perform p (sending pevent target has_thread str) = send p pevent target has_thread str
    perform p (quitting pevent address) = quit p pevent address
    perform p (terminating file t) = terminate p file t
    perform p (starting t) = start t

    pub perform_all : ℕ → List Call → List Act
    unfolding perform
    perform_all p [] = []
    perform_all p (c ∷ calls) = perform p c ++ perform_all p calls

-- Who has the mutex of the logger, who has the others, what was written, and what each thread has yet to
-- do.
pub record System : Type 0 where
  pub owner : Option ℕ
  pub held : List (Mutex × ℕ)
  pub stream : Bytes
  pub rest : ℕ → List Act

-- A recursive mutex can be taken unless another thread has it.
pub is_open : ℕ → Mutex → List (Mutex × ℕ) → Bool
unfolding same_mutex
is_open p m [] = true
is_open p m ((n, q) ∷ held) = (not (same_mutex m n) || q == p) && is_open p m held

pub release : ℕ → Mutex → List (Mutex × ℕ) → List (Mutex × ℕ)
unfolding same_mutex
release p m [] = []
release p m ((n, q) ∷ held) = if same_mutex m n && q == p then held else (n, q) ∷ release p m held

-- An act of thread p, or `none` while it has to wait.
pub act : ℕ → Act → System → Option System
unfolding is_open release
act p lock_log s = elim s.owner [ none ↦ some (record s { owner = some p }) | some _ ↦ none ]
act p unlock_log s = some (record s { owner = none })
act p (lock m) s = if is_open p m s.held then some (record s { held = (m, p) ∷ s.held }) else none
act p (unlock m) s = some (record s { held = release p m s.held })
act p (write str) s = some (record s { stream = s.stream ++ str })

abbrev pub set_rest : ℕ → List Act → (ℕ → List Act) → ℕ → List Act
set_rest p acts rest q = if q == p then acts else rest q

pub data Step (s : System) : System → Type 0 where
  step :
      (p : ℕ) (a : Act) (acts : List Act) (after : System)
      → s.rest p ≡ a ∷ acts
      → act p a s ≡ some after
      → Step s (record after { rest = set_rest p acts s.rest })

pub data Reach (s : System) : System → Type 0 where
  here : Reach s s
  next : {t u : System} → Reach s t → Step t u → Reach s u
