-- ===== src/Signals.antt =====
-- signalhandler.h and signalhandler.cpp, the POSIX branch: signals of the system and of the program.
-- The system's signals are the four that the code names and any other; `error` is the -1 that the
-- code returns for none, and sigaction fails on it.
pub mod Delivery
pub mod Ending
mod Tests
use drumlin.Prelude.{
  ℕ, zero, suc, ◌+◌, ◌-◌, ◌/◌, ◌%◌, ◌^◌, Bool, List, [], ◌∷◌, ◌==◌, if◌then◌else◌, Bytes, nat_eq,
  bytes_eq,
}
use drumlin.Event.{make_event, application_shutdown}
use drumlin.Threads.{Application, post}

pub data SignalType : Type 0 where
  signal_first signal_unhandled signal_noop signal_int signal_term signal_close : SignalType
  signal_reload signal_segv signal_all signal_last : SignalType

pub data Physical : Type 0 where
  sigint sigterm sighup sigsegv error : Physical
  other : ℕ → Physical

-- POSIX_logicalToPhysical
pub logical_to_physical : SignalType → Physical
logical_to_physical signal_int = sigint
logical_to_physical signal_term = sigterm
logical_to_physical signal_close = sigterm
logical_to_physical signal_reload = sighup
logical_to_physical signal_segv = sigsegv
logical_to_physical _ = error

-- POSIX_physicalToLogical
pub physical_to_logical : Physical → SignalType
physical_to_logical sigint = signal_int
physical_to_logical sigterm = signal_term
physical_to_logical sighup = signal_reload
physical_to_logical sigsegv = signal_segv
physical_to_logical _ = signal_unhandled

abbrev pub num_signals : ℕ
num_signals = 5

-- The type whose number is 1 << i, for the numbers that SignalType has.
pub of_bit : ℕ → SignalType
of_bit i =
    if i == 0
    then signal_noop
    else if i == 1
    then signal_int
    else if i == 2
    then signal_term
    else if i == 3
    then signal_close
    else if i == 4
    then signal_reload
    else if i == 5
    then signal_segv
    else signal_unhandled

abbrev pub has_bit : ℕ → ℕ → Bool
has_bit mask i = mask / 2 ^ i % 2 == 1

-- The loop of the constructor from i on: the signals that it calls sigaction with.
pub assign_handlers : ℕ → ℕ → ℕ → List Physical
unfolding of_bit logical_to_physical
assign_handlers zero i mask = []
assign_handlers (suc rounds) i mask =
    let rest = assign_handlers rounds (i + 1) mask in
    if has_bit mask i then logical_to_physical (of_bit i) ∷ rest else rest

-- The constructor of SignalHandler.
pub signal_handler : ℕ → List Physical
unfolding assign_handlers
signal_handler mask = assign_handlers num_signals 0 mask

-- The numbers of SignalType, as the pointer of an event holds them.
pub signal_number : SignalType → ℕ
signal_number signal_first = 2 ^ 64 - 1
signal_number signal_unhandled = 0
signal_number signal_noop = 1
signal_number signal_int = 2
signal_number signal_term = 4
signal_number signal_close = 8
signal_number signal_reload = 16
signal_number signal_segv = 32
signal_number signal_all = 63
signal_number signal_last = 33

module _ (to_string : SignalType → Bytes) where
  -- SignalHandler::handleSignal, without the trace; `to_string` is the name of a signal.
  pub handle_signal : SignalType → Application → Application
  unfolding post make_event signal_number
  handle_signal signal app =
      post (make_event application_shutdown (to_string signal) (signal_number signal)) app

  -- POSIX_handleFunc; `g_handler` says whether there is a handler.
  pub handle_func : Bool → Physical → Application → Application
  unfolding handle_signal physical_to_logical
  handle_func g_handler signal app =
      if g_handler then handle_signal (physical_to_logical signal) app else app
