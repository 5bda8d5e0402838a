-- ===== src/Signals/Delivery.antt =====
-- signalhandler.cpp: which signals are handled, and as what they arrive.
use drumlin.Prelude.{
  ℕ, zero, suc, ◌+◌, ◌≤◌, ◌<◌, ◌≡◌, refl, ◌≢◌, ◌⊎◌, inl, inr, arith, length, All, nat_eq, bytes_eq,
}
use drumlin.Signals.{
  SignalType, Physical, logical_to_physical, physical_to_logical, num_signals, of_bit,
  assign_handlers, signal_handler, signal_first, signal_unhandled, signal_noop, signal_int,
  signal_term, signal_close, signal_reload, signal_segv, signal_all, signal_last, sigint, sigterm,
  sighup, sigsegv, error, other,
}

of_bit_low : (i : ℕ) → i < 5 → logical_to_physical (of_bit i) ≢ sigsegv
unfolding of_bit logical_to_physical
of_bit_low i h = ground arith

assign_handlers_low :
    (rounds i mask : ℕ) → i + rounds ≤ 5 → All (λ s. s ≢ sigsegv) (assign_handlers rounds i mask)
unfolding assign_handlers
assign_handlers_low zero i mask h = tt
assign_handlers_low (suc rounds) i mask h =
    ground
      (arith, of_bit_low i (omega arith), assign_handlers_low rounds (i + 1) mask (omega arith))

length-assign_handlers : (rounds i mask : ℕ) → length (assign_handlers rounds i mask) ≤ rounds
unfolding assign_handlers
length-assign_handlers zero i mask = omega arith
length-assign_handlers (suc rounds) i mask =
    ground (arith, length-assign_handlers rounds (i + 1) mask)

-- No mask makes the constructor assign a handler to an address fault, also none with the bit of
-- signal_segv; it assigns five handlers at most.
pub signal_handler_segv :
    (mask : ℕ)
    → All (λ s. s ≢ sigsegv) (signal_handler mask) × (length (signal_handler mask) ≤ num_signals)
unfolding signal_handler
signal_handler_segv mask =
    (assign_handlers_low 5 0 mask (omega arith), length-assign_handlers 5 0 mask)

arrival :
    (p : Physical)
    → (physical_to_logical p ≡ signal_unhandled) ⊎ (logical_to_physical (physical_to_logical p) ≡ p)
unfolding logical_to_physical physical_to_logical
arrival sigint = inr refl
arrival sigterm = inr refl
arrival sighup = inr refl
arrival sigsegv = inr refl
arrival error = inl refl
arrival (other n) = inl refl

request :
    (s : SignalType)
    → (logical_to_physical s ≡ error)
      ⊎ (physical_to_logical (logical_to_physical s) ≡ s)
      ⊎ ((s ≡ signal_close) × (physical_to_logical (logical_to_physical s) ≡ signal_term))
unfolding logical_to_physical physical_to_logical
request signal_int = inr (inl refl)
request signal_term = inr (inl refl)
request signal_close = inr (inr (refl, refl))
request signal_reload = inr (inl refl)
request signal_segv = inr (inl refl)
request signal_first = inl refl
request signal_unhandled = inl refl
request signal_noop = inl refl
request signal_all = inl refl
request signal_last = inl refl

-- A signal of the system that the program knows arrives as a type for which the handler is
-- assigned to that signal; and the type that asks for a handler arrives as itself, but for a
-- close, which arrives as a term, if it has a signal.
pub delivery :
    (s : SignalType) (p : Physical)
    → ((physical_to_logical p ≡ signal_unhandled)
        ⊎ (logical_to_physical (physical_to_logical p) ≡ p))
      × ((logical_to_physical s ≡ error)
          ⊎ (physical_to_logical (logical_to_physical s) ≡ s)
          ⊎ ((s ≡ signal_close) × (physical_to_logical (logical_to_physical s) ≡ signal_term)))
delivery s p = (arrival p, request s)
