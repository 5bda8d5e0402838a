-- ===== src/Logging/Jammed.antt =====
-- thread.cpp and event.cpp: quit logs while it has the m_mutex of its thread, and send prints a thread, for
-- which it takes that thread's m_mutex, while it has the mutex of the logger.
use drumlin.Prelude.{
  ℕ, ◌≡◌, ◌≢◌, Bool, true, false, ◌&&◌, ◌||◌, some, List, [], ◌∷◌, ◌==◌, nat_eq, bytes_eq,
}
use drumlin.Logging.{Mutex, internal, same_mutex, Act, lock_log, lock, System, Reach, here, next}

-- Thread p has mutex m.
unfoldable pub has : ℕ → Mutex → List (Mutex × ℕ) → Bool
unfolding same_mutex
has p m [] = false
has p m ((n, r) ∷ held) = same_mutex m n && r == p || has p m held

-- Thread q has the mutex of the logger, and is to take the m_mutex of p next; p has that one, and is to take
-- the mutex of the logger next.
pub record IsJammed (p q : ℕ) (s : System) : Type 0 where
  pub distinct : p ≢ q
  pub logging : s.owner ≡ some q
  pub holding : has p (internal p) s.held ≡ true
  pub quitter : (acts : List Act) × (s.rest p ≡ lock_log ∷ acts)
  pub sender : (acts : List Act) × (s.rest q ≡ lock (internal p) ∷ acts)

-- What thread p has yet to do, and the stream, stand still.
abbrev pub Stands : ℕ → ℕ → System → System → Type 0
Stands p q s t =
    IsJammed p q t × (t.stream ≡ s.stream) × (t.rest p ≡ s.rest p) × (t.rest q ≡ s.rest q)

pub Reach-append : {s t u : System} → Reach s t → Reach t u → Reach s u
Reach-append r here = r
Reach-append r (next r' st) = next (Reach-append r r') st
