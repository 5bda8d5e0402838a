-- ===== src/Logging/Texts.antt =====
-- logger.cpp and drumlin.h: the lines that a list of acts writes under the logger's mutex, and those
-- that the calls are to write.
use drumlin.Prelude.{
  ℕ, ◌≡◌, refl, sym, ap, ◌∙◌, inl, inr, Bool, true, false, List, [], ◌∷◌, ◌++◌, append-nil,
  append_assoc, ◌==◌, if◌then◌else◌, Bool-cases, Bytes, codes, nat_eq, bytes_eq,
}
use drumlin.Logging.{
  Act, lock_log, unlock_log, lock, unlock, write, Integer, Operand, thread_id, text, what, integer,
  character, pointer, any, thread, value_types, write_any, put,
}

-- What is written before the mutex is released.
unfoldable pub finish : List Act → Bytes
finish [] = []
finish (lock_log ∷ acts) = finish acts
finish (unlock_log ∷ acts) = []
finish (lock m ∷ acts) = finish acts
finish (unlock m ∷ acts) = finish acts
finish (write str ∷ acts) = str ++ finish acts

-- The lines of a list of acts; where the mutex is held at its head, without that which is under way.
unfoldable pub lines : Bool → List Act → List Bytes
unfolding finish
lines held [] = []
lines held (lock_log ∷ acts) = finish acts ∷ lines true acts
lines held (unlock_log ∷ acts) = lines false acts
lines held (lock m ∷ acts) = lines held acts
lines held (unlock m ∷ acts) = lines held acts
lines held (write str ∷ acts) = lines held acts

-- What is written is written under the mutex, which is taken where it is not held, and released.
unfoldable pub Logs : Bool → List Act → Type 0
Logs false [] = Unit
Logs true [] = ⊥
Logs false (lock_log ∷ acts) = Logs true acts
Logs true (lock_log ∷ acts) = ⊥
Logs false (unlock_log ∷ acts) = ⊥
Logs true (unlock_log ∷ acts) = Logs false acts
Logs held (lock m ∷ acts) = Logs held acts
Logs held (unlock m ∷ acts) = Logs held acts
Logs false (write str ∷ acts) = ⊥
Logs true (write str ∷ acts) = Logs true acts

-- A list of acts that leaves the mutex of the logger alone.
unfoldable pub Plain : List Act → Type 0
Plain [] = Unit
Plain (lock_log ∷ acts) = ⊥
Plain (unlock_log ∷ acts) = ⊥
Plain (lock m ∷ acts) = Plain acts
Plain (unlock m ∷ acts) = Plain acts
Plain (write str ∷ acts) = Plain acts

pub Plain-append : (xs ys : List Act) → Plain xs → Plain ys → Plain (xs ++ ys)
unfolding Plain
Plain-append [] ys h k = k
Plain-append (lock_log ∷ xs) ys h k = absurd h
Plain-append (unlock_log ∷ xs) ys h k = absurd h
Plain-append (lock m ∷ xs) ys h k = Plain-append xs ys h k
Plain-append (unlock m ∷ xs) ys h k = Plain-append xs ys h k
Plain-append (write str ∷ xs) ys h k = Plain-append xs ys h k

pub finish-append : (xs ys : List Act) → Plain xs → finish (xs ++ ys) ≡ finish xs ++ finish ys
unfolding Plain finish
finish-append [] ys h = refl
finish-append (lock_log ∷ xs) ys h = absurd h
finish-append (unlock_log ∷ xs) ys h = absurd h
finish-append (lock m ∷ xs) ys h = finish-append xs ys h
finish-append (unlock m ∷ xs) ys h = finish-append xs ys h
finish-append (write str ∷ xs) ys h =
    ap (λ t. str ++ t) (finish-append xs ys h) ∙ sym (append_assoc str (finish xs) (finish ys))

-- A list of acts under the mutex: it logs, and its line is what it writes.
pub statement_lem :
    (body : List Act)
    → Plain body
    → Logs false (lock_log ∷ (body ++ unlock_log ∷ []))
      × (lines false (lock_log ∷ (body ++ unlock_log ∷ [])) ≡ finish body ∷ [])
unfolding Plain Logs lines finish
statement_lem body h =
    let (logs, none_later) = under body h in
    (
      logs,
      ap (◌∷◌ (finish (body ++ unlock_log ∷ []))) none_later
          ∙ ap (λ t. t ∷ []) (finish-append body (unlock_log ∷ []) h ∙ append-nil (finish body)),
    )
  where
    under :
        (acts : List Act)
        → Plain acts
        → Logs true (acts ++ unlock_log ∷ []) × (lines true (acts ++ unlock_log ∷ []) ≡ [])
    under [] h = (tt, refl)
    under (lock_log ∷ acts) h = absurd h
    under (unlock_log ∷ acts) h = absurd h
    under (lock m ∷ acts) h = under acts h
    under (unlock m ∷ acts) h = under acts h
    under (write str ∷ acts) h = under acts h

-- Two lists of acts, one after the other.
pub Logs-append :
    (held : Bool) (xs ys : List Act)
    → Logs held xs
    → Logs false ys
    → Logs held (xs ++ ys)
      × (lines held (xs ++ ys) ≡ lines held xs ++ lines false ys)
      × ((held ≡ true) → finish (xs ++ ys) ≡ finish xs)
unfolding Logs lines finish
Logs-append false [] ys h k = (k, refl, λ e. cc)
Logs-append true [] ys h k = absurd h
Logs-append false (lock_log ∷ xs) ys h k =
    let (logs, later, same) = Logs-append true xs ys h k in (logs, rw (same refl, later), λ e. cc)
Logs-append true (lock_log ∷ xs) ys h k = absurd h
Logs-append false (unlock_log ∷ xs) ys h k = absurd h
Logs-append true (unlock_log ∷ xs) ys h k =
    let (logs, later, _) = Logs-append false xs ys h k in (logs, later, λ e. refl)
Logs-append false (lock m ∷ xs) ys h k = Logs-append false xs ys h k
Logs-append true (lock m ∷ xs) ys h k = Logs-append true xs ys h k
Logs-append false (unlock m ∷ xs) ys h k = Logs-append false xs ys h k
Logs-append true (unlock m ∷ xs) ys h k = Logs-append true xs ys h k
Logs-append false (write str ∷ xs) ys h k = absurd h
Logs-append true (write str ∷ xs) ys h k =
    let (logs, later, same) = Logs-append true xs ys h k in
    (logs, later, λ e. ap (λ t. str ++ t) (same e))

-- The text of an operand, and the line of a statement.
any_text : List ℕ → ℕ → Bytes → Bytes
any_text [] type value = []
any_text (t ∷ types) type value =
    (if t == type then b' ' ∷ value else []) ++ any_text types type value

module _ (show : Integer → Bytes) (show_pointer : ℕ → Bytes) (show_id : ℕ → Bytes) where
  pub operand_text : Operand → Bytes
  unfolding any_text
  operand_text (thread_id id) = b' ' ∷ id
  operand_text (text str) = b' ' ∷ str
  operand_text (what str) = b' ' ∷ str
  operand_text (integer i) = b' ' ∷ show i
  operand_text (character c) = b' ' ∷ c ∷ []
  operand_text (pointer ptr) = b' ' ∷ show_pointer ptr
  operand_text (any type value) = any_text value_types type value
  operand_text (thread t has_thread str) = b' ' ∷ str

  unfoldable pub operand_texts : List Operand → Bytes
  unfolding operand_text
  operand_texts [] = []
  operand_texts (o ∷ operands) = operand_text o ++ operand_texts operands

  unfoldable pub line : ℕ → List Operand → Bytes
  unfolding operand_texts
  line p operands = (show_id p ++ codes "::") ++ (operand_texts operands ++ b'\n' ∷ [])

  write_any-Plain :
      (types : List ℕ) (type : ℕ) (value : Bytes)
      → Plain (write_any types type value)
        × (finish (write_any types type value) ≡ any_text types type value)
  unfolding Plain finish write_any any_text
  write_any-Plain [] type value = (tt, refl)
  write_any-Plain (t ∷ types) type value = elim (Bool-cases (t == type)) [
    | inl e ↦
        let (plain, same) = write_any-Plain types type value in
        rw (e, write_any, any_text) (plain, ap (λ s. (b' ' ∷ value) ++ s) same)
    | inr e ↦ rw (e, write_any, any_text) (write_any-Plain types type value)
  ]

  pub put-Plain :
      (o : Operand)
      → Plain (put show show_pointer show_id o)
        × (finish (put show show_pointer show_id o) ≡ operand_text o)
  unfolding Plain finish put operand_text
  put-Plain (thread_id id) = (tt, append-nil (b' ' ∷ id))
  put-Plain (text str) = (tt, append-nil (b' ' ∷ str))
  put-Plain (what str) = (tt, append-nil (b' ' ∷ str))
  put-Plain (integer i) = (tt, append-nil (b' ' ∷ show i))
  put-Plain (character c) = (tt, append-nil (b' ' ∷ c ∷ []))
  put-Plain (pointer ptr) = (tt, append-nil (b' ' ∷ show_pointer ptr))
  put-Plain (any type value) = write_any-Plain value_types type value
  put-Plain (thread t true str) = (tt, append-nil (b' ' ∷ str))
  put-Plain (thread t false str) = (tt, append-nil (b' ' ∷ str))
