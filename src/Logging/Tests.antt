-- ===== src/Logging/Tests.antt =====
-- Concrete runs of the theorems of the logger.
use drumlin.Prelude.{
  ℕ, refl, true, false, none, some, List, [], ◌∷◌, arith, ◌==◌, if◌then◌else◌, take, drop, Bytes,
  codes, nat_eq, bytes_eq,
}
use drumlin.Logging.{
  critical, internal, Act, Integer, Call, quitting, sending, starting, perform_all, System,
  set_rest, Reach,
}
use drumlin.Logging.Keeping.{at_start}
use drumlin.Logging.Jammed.{IsJammed}
use drumlin.Logging.Meeting.{written, quit-send_jams}

abbrev show : Integer → Bytes
show i = i.magnitude ∷ []

abbrev show_number : ℕ → Bytes
show_number n = n ∷ []

-- Thread 1 quits, thread 2 sends to it, and thread 3 starts a thread.
abbrev calls : ℕ → List Call
calls r =
    if r == 1
    then quitting (codes "remove") 9 ∷ []
    else if r == 2
    then sending (codes "work") 1 false (codes "one") ∷ []
    else if r == 3
    then starting 4 ∷ []
    else []

abbrev acts : ℕ → List Act
acts r = perform_all show show_number show_number true r (calls r)

abbrev first_state : System
first_state = at_start show show_number show_number true calls

-- Thread 1 before the second line that quit logs.
abbrev quitting_state : System
quitting_state = record {
  owner = none;
  held = (internal 1, 1) ∷ [];
  stream = written (take 10 (acts 1)) [];
  rest = set_rest 1 (drop 10 (acts 1)) acts;
}

-- Thread 2 before it takes the m_mutex of thread 1.
abbrev jammed_state : System
jammed_state = record {
  owner = some 2;
  held = (internal 1, 1) ∷ [];
  stream = written (take 7 (acts 2)) quitting_state.stream;
  rest = set_rest 2 (drop 7 (acts 2)) quitting_state.rest;
}

-- Thread 3 goes on.
abbrev later_state : System
later_state = record {
  owner = some 2;
  held = (internal 4, 3) ∷ (critical, 3) ∷ (internal 1, 1) ∷ [];
  stream = jammed_state.stream;
  rest = set_rest 3 (drop 2 (acts 3)) jammed_state.rest;
}

-- A state with what each thread has yet to do as before.
abbrev alone : System → System
alone s = record s { rest = acts }

quit-send_jams_example : (s : System) × Reach first_state s × IsJammed 1 2 s
quit-send_jams_example =
    quit-send_jams show show_number show_number calls 1 2 (codes "remove") 9 [] (codes "work") false
      (codes "one") [] (omega arith) refl refl
