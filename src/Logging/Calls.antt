-- ===== src/Logging/Calls.antt =====
-- The calls of logger.h, drumlin.h, thread.cpp and event.cpp: each writes its lines, and only under the
-- mutex of the logger.
use drumlin.Prelude.{
  ℕ, ◌≡◌, refl, ap, ◌∙◌, inl, inr, Bool, false, List, [], ◌∷◌, ◌++◌, if◌then◌else◌, Bool-cases, All,
  Bytes, codes, nat_eq, bytes_eq,
}
use drumlin.Logging.{
  internal, Act, lock, unlock, write, Integer, Operand, text, pointer, thread, put, put_all, log,
  log_critical, log_locked, TakesMutex, log_debug, Call, debugged, criticised, exclaimed,
  making_event, punting, sending, quitting, terminating, starting, perform, perform_all,
}
use drumlin.Logging.Texts.{
  finish, lines, Logs, Plain, Plain-append, finish-append, statement_lem, Logs-append, operand_text,
  operand_texts, line, put-Plain,
}

-- The operands of two statements.
abbrev made : Bytes → ℕ → List Operand
made pevent address =
    text (codes "new.C")
    ∷ text (codes "init")
    ∷ text pevent
    ∷ text (codes ":")
    ∷ pointer address
    ∷ []

abbrev punted : Bytes → List Operand
punted pevent =
    text (codes "punting") ∷ text pevent ∷ text (codes "to") ∷ text (codes "application") ∷ []

-- The lines that a list of acts, which is carried out from its head, adds to those before.
abbrev pub Writes : List Act → List Bytes → Type 0
Writes acts strs = Logs false acts × (lines false acts ≡ strs)

Writes-append :
    (xs ys : List Act) (strs more : List Bytes)
    → Writes xs strs
    → Writes ys more
    → Writes (xs ++ ys) (strs ++ more)
Writes-append xs ys strs more (hx, ex) (hy, ey) =
    let (logs, same, _) = Logs-append false xs ys hx hy in (logs, rw (same, ex, ey) refl)

module _ (show : Integer → Bytes) (show_pointer : ℕ → Bytes) (show_id : ℕ → Bytes) where
  put_all-Plain :
      (operands : List Operand)
      → Plain (put_all show show_pointer show_id operands)
        × (finish (put_all show show_pointer show_id operands)
            ≡ operand_texts show show_pointer show_id operands)
  unfolding put_all operand_texts Plain finish
  put_all-Plain [] = (tt, refl)
  put_all-Plain (o ∷ operands) =
      let acts = put show show_pointer show_id o in
      let more = put_all show show_pointer show_id operands in
      let (plain, same) = put-Plain show show_pointer show_id o in
      let (plain', same') = put_all-Plain operands in
      (
        Plain-append acts more plain plain',
        finish-append acts more plain
            ∙ ap (λ s. s ++ finish more) same
            ∙ ap (λ s. operand_text show show_pointer show_id o ++ s) same',
      )

  log-Plain :
      (p : ℕ) (operands : List Operand)
      → Plain (log show show_pointer show_id p operands)
        × (finish (log show show_pointer show_id p operands)
            ≡ line show show_pointer show_id p operands)
  unfolding log line Plain finish
  log-Plain p operands =
      let acts = put_all show show_pointer show_id operands in
      let end = write (b'\n' ∷ []) ∷ [] in
      let (plain, same) = put_all-Plain operands in
      (
        Plain-append acts end plain tt,
        ap (λ s. (show_id p ++ codes "::") ++ s)
            (finish-append acts end plain ∙ ap (λ s. s ++ b'\n' ∷ []) same),
      )

  log_locked-Writes :
      (p : ℕ) (operands : List Operand)
      → Writes
          (log_locked show show_pointer show_id p operands)
          (line show show_pointer show_id p (text (codes "********") ∷ operands) ∷ [])
  unfolding log_locked log_critical
  log_locked-Writes p operands =
      let ops = text (codes "********") ∷ operands in
      let (plain, same) = log-Plain p ops in
      let (logs, e) = statement_lem (log show show_pointer show_id p ops) plain in
      (logs, e ∙ ap (λ s. s ∷ []) same)

  module _ (debug : Bool) where
    -- A line of Debug(), which is empty where nothing is to be logged.
    pub debug_line : ℕ → List Operand → Bytes
    unfolding line
    debug_line p operands = if debug then line show show_pointer show_id p operands else []

    log_debug-Writes :
        (p : ℕ) (operands : List Operand)
        → Writes (log_debug show show_pointer show_id debug p operands) (debug_line p operands ∷ [])
    unfolding log_debug debug_line Plain finish
    log_debug-Writes p operands = elim (Bool-cases debug) [
      | inl e ↦
          let (plain, same) = log-Plain p operands in
          let (logs, f) = statement_lem (log show show_pointer show_id p operands) plain in
          rw (e, log_debug, debug_line) (logs, f ∙ ap (λ s. s ∷ []) same)
      | inr e ↦ rw (e, log_debug, debug_line) (statement_lem [] tt)
    ]

    -- The lines of a call.
    pub call_lines : ℕ → Call → List Bytes
    unfolding debug_line
    call_lines p (debugged operands) = debug_line p operands ∷ []
    call_lines p (criticised operands) =
        line show show_pointer show_id p (text (codes "********") ∷ operands) ∷ []
    call_lines p (exclaimed operands) =
        line show show_pointer show_id p (text (codes "********") ∷ operands) ∷ []
    call_lines p (making_event pevent address) = debug_line p (made pevent address) ∷ []
    call_lines p (punting pevent) = debug_line p (punted pevent) ∷ []
    call_lines p (sending pevent target has_thread str) =
        debug_line p (
          text (codes "sending")
          ∷ text pevent
          ∷ text (codes "to")
          ∷ thread target has_thread str
          ∷ [])
        ∷ []
    call_lines p (quitting pevent address) =
        debug_line p (made pevent address) ∷ debug_line p (punted pevent) ∷ []
    call_lines p (terminating file t) =
        debug_line p (text file ∷ text (codes "terminate") ∷ text (codes ":") ∷ pointer t ∷ []) ∷ []
    call_lines p (starting t) = []

    pub all_lines : ℕ → List Call → List Bytes
    unfolding call_lines
    all_lines p [] = []
    all_lines p (c ∷ calls) = call_lines p c ++ all_lines p calls

    perform-Writes :
        (p : ℕ) (c : Call)
        → TakesMutex c
        → Writes (perform show show_pointer show_id debug p c) (call_lines p c)
    unfolding perform call_lines lines Logs TakesMutex
    perform-Writes p (debugged operands) m = log_debug-Writes p operands
    perform-Writes p (criticised operands) m = log_locked-Writes p operands
    perform-Writes p (exclaimed operands) m = absurd m
    perform-Writes p (making_event pevent address) m = log_debug-Writes p (made pevent address)
    perform-Writes p (punting pevent) m = log_debug-Writes p (punted pevent)
    perform-Writes p (sending pevent target has_thread str) m = log_debug-Writes p (
        text (codes "sending")
        ∷ text pevent
        ∷ text (codes "to")
        ∷ thread target has_thread str
        ∷ [])
    perform-Writes p (quitting pevent address) m =
        let first = log_debug show show_pointer show_id debug p (made pevent address) in
        let second = log_debug show show_pointer show_id debug p (punted pevent) in
        let last = unlock (internal p) ∷ [] in
        Writes-append first (second ++ last) (debug_line p (made pevent address) ∷ [])
          (debug_line p (punted pevent) ∷ []) (log_debug-Writes p (made pevent address))
          (Writes-append second last (debug_line p (punted pevent) ∷ []) []
            (log_debug-Writes p (punted pevent)) (tt, refl))
    perform-Writes p (terminating file t) m =
        let ops = text file ∷ text (codes "terminate") ∷ text (codes ":") ∷ pointer t ∷ [] in
        Writes-append (log_debug show show_pointer show_id debug p ops)
          (lock (internal t) ∷ unlock (internal t) ∷ []) (debug_line p ops ∷ []) []
          (log_debug-Writes p ops) (tt, refl)
    perform-Writes p (starting t) m = (tt, refl)

    pub perform_all-Writes :
        (p : ℕ) (calls : List Call)
        → All TakesMutex calls
        → Writes (perform_all show show_pointer show_id debug p calls) (all_lines p calls)
    unfolding perform_all all_lines lines Logs
    perform_all-Writes p [] m = (tt, refl)
    perform_all-Writes p (c ∷ calls) (m, ms) =
        Writes-append (perform show show_pointer show_id debug p c)
          (perform_all show show_pointer show_id debug p calls) (call_lines p c) (all_lines p calls)
          (perform-Writes p c m) (perform_all-Writes p calls ms)
