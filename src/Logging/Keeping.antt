-- ===== src/Logging/Keeping.antt =====
-- logger.cpp and drumlin.h: what threads that log next to one another make of the stream, act by act.
use drumlin.Prelude.{
  All, ℕ, ◌≡◌, refl, sym, ap, ◌∙◌, subst, inl, inr, Bool, true, false, none, some, List, [], ◌∷◌,
  ◌++◌, append-nil, append_assoc, ==_refl, Bool-cases, Option-cases, Bytes, nat_eq, bytes_eq,
}
use mathlib.Core.Option.{some_inj, none-ne-some}
use drumlin.Logging.{
  TakesMutex, Mutex, Act, lock_log, unlock_log, lock, unlock, write, Integer, Call, perform_all,
  System, is_open, release, act, set_rest, step, Reach, here, next,
}
use drumlin.Logging.Texts.{finish, lines, Logs}
use drumlin.Logging.Calls.{all_lines, perform_all-Writes}
use drumlin.Logging.Whole.{
  of_thread, joined, holds, left, IsPart, IsWhole, joined-append, IsWhole-move, holds-some,
  holds_other, IsWhole-at, IsWhole-own, of_thread_own, of_thread_other,
}

-- What unlocks the mutex of the logger, or writes, has it.
pub has_log :
    (s : System) (p : ℕ) (a : Act) (acts : List Act)
    → s.rest p ≡ a ∷ acts
    → Logs (holds p s.owner) (s.rest p)
    → (Logs false (a ∷ acts) → ⊥)
    → s.owner ≡ some p
has_log s p a acts e logs refused = elim (Bool-cases (holds p s.owner)) [
  | inl yes_p ↦ holds-some p s.owner yes_p
  | inr no_p ↦
      absurd (refused (subst (λ x. Logs false x) e (subst (λ b. Logs b (s.rest p)) no_p logs)))
]

-- To take another mutex, or to release it, changes none of this.
lock_same :
    (b : Bool) (part : Bytes) (m : Mutex) (acts : List Act)
    → (Logs b (lock m ∷ acts) → Logs b acts) × (left b part (lock m ∷ acts) ≡ left b part acts)
unfolding Logs left lines finish
lock_same true part m acts = (λ h. h, refl)
lock_same false part m acts = (λ h. h, refl)

unlock_same :
    (b : Bool) (part : Bytes) (m : Mutex) (acts : List Act)
    → (Logs b (unlock m ∷ acts) → Logs b acts) × (left b part (unlock m ∷ acts) ≡ left b part acts)
unfolding Logs left lines finish
unlock_same true part m acts = (λ h. h, refl)
unlock_same false part m acts = (λ h. h, refl)

-- Each act keeps the lines whole.
module _ (all : ℕ → List Bytes) (s : System) (p : ℕ) (acts : List Act) (w : IsWhole all s) where
  -- The state behind an act is the one that it gives.
  settle :
      (after t : System)
      → some t ≡ some after
      → IsWhole all (record t { rest = set_rest p acts s.rest })
      → IsWhole all (record after { rest = set_rest p acts s.rest })
  settle after t h =
      subst (λ u. IsWhole all (record u { rest = set_rest p acts s.rest })) (some_inj.0 h)

  lock_log-IsWhole :
      s.rest p ≡ lock_log ∷ acts
      → s.owner ≡ none
      → IsWhole all (record s { owner = some p; rest = set_rest p acts s.rest })
  unfolding IsPart Logs lines finish left holds
  lock_log-IsWhole e eo =
      let (empty, logs, kept) = IsWhole-at all s p w none (lock_log ∷ acts) eo e in
      IsWhole-move all s (record s { owner = some p }) p acts w w.done w.part w.written tt
        (rw (==_refl p) logs) (rw (==_refl p, empty) kept)
        (λ q d. rw (eo, holds_other p q d) (refl, refl))

  unlock_log-IsWhole :
      s.rest p ≡ unlock_log ∷ acts
      → IsWhole all (record s { owner = none; rest = set_rest p acts s.rest })
  unfolding IsPart Logs lines finish left holds joined
  unlock_log-IsWhole e =
      let eo = has_log s p unlock_log acts e (w.logs p) (λ h. h) in
      let (logs, kept) = IsWhole-own all s p w (unlock_log ∷ acts) eo e in
      let done = w.done ++ (p, w.part) ∷ [] in
      IsWhole-move all s (record s { owner = none }) p acts w done []
        (w.written
          ∙ sym (
              append-nil (joined done)
              ∙ joined-append w.done ((p, w.part) ∷ [])
              ∙ ap (λ t. joined w.done ++ t) (append-nil w.part)))
        refl logs
        (rw (of_thread_own p w.done w.part, append_assoc (of_thread p w.done) (w.part ∷ []))
          (subst (λ t. of_thread p w.done ++ t ∷ lines false acts ≡ all p) (append-nil w.part)
            kept))
        (λ q d. rw (eo, holds_other p q d, of_thread_other p q w.done w.part d) (refl, refl))

  write-IsWhole :
      (str : Bytes)
      → s.rest p ≡ write str ∷ acts
      → IsWhole all (record s { stream = s.stream ++ str; rest = set_rest p acts s.rest })
  unfolding IsPart Logs lines finish left holds
  write-IsWhole str e =
      let eo = has_log s p (write str) acts e (w.logs p) (λ h. h) in
      let (logs, kept) = IsWhole-own all s p w (write str ∷ acts) eo e in
      let part = w.part ++ str in
      IsWhole-move all s (record s { stream = s.stream ++ str }) p acts w w.done part
        (ap (λ t. t ++ str) w.written ∙ append_assoc (joined w.done) w.part str) (rw eo tt)
        (rw (eo, ==_refl p) logs) (rw (eo, ==_refl p, append_assoc w.part str (finish acts)) kept)
        (λ q d. rw (eo, holds_other p q d) (refl, refl))

  locking-IsWhole :
      (a : Act) (held : List (Mutex × ℕ))
      → s.rest p ≡ a ∷ acts
      → (Logs (holds p s.owner) (a ∷ acts) → Logs (holds p s.owner) acts)
      → left (holds p s.owner) w.part (a ∷ acts) ≡ left (holds p s.owner) w.part acts
      → IsWhole all (record s { held = held; rest = set_rest p acts s.rest })
  locking-IsWhole a held e go_on same_left =
      let (_, logs, kept) = IsWhole-at all s p w s.owner (a ∷ acts) refl e in
      IsWhole-move all s (record s { held = held }) p acts w w.done w.part w.written w.begun
        (go_on logs) (subst (λ t. of_thread p w.done ++ t ≡ all p) same_left kept)
        (λ q d. (refl, refl))

  pub act-IsWhole :
      (a : Act) (after : System)
      → s.rest p ≡ a ∷ acts
      → act p a s ≡ some after
      → IsWhole all (record after { rest = set_rest p acts s.rest })
  unfolding act
  act-IsWhole lock_log after e h = elim (Option-cases s.owner) [
    | inl free ↦
        let now : act p lock_log s ≡ some (record s { owner = some p }) = rw (free, act) refl in
        settle after (record s { owner = some p }) (sym now ∙ h) (lock_log-IsWhole e free)
    | inr (q, taken) ↦
        let now : act p lock_log s ≡ none = rw (taken, act) refl in
        absurd (none-ne-some after (sym now ∙ h))
  ]
  act-IsWhole unlock_log after e h =
      settle after (record s { owner = none }) h (unlock_log-IsWhole e)
  act-IsWhole (lock m) after e h = elim (Bool-cases (is_open p m s.held)) [
    | inl free ↦
        let t = record s { held = (m, p) ∷ s.held } in
        let now : act p (lock m) s ≡ some t = rw (free, act) refl in
        let (go_on, same) = lock_same (holds p s.owner) w.part m acts in
        settle after t (sym now ∙ h) (locking-IsWhole (lock m) ((m, p) ∷ s.held) e go_on same)
    | inr taken ↦
        let now : act p (lock m) s ≡ none = rw (taken, act) refl in
        absurd (none-ne-some after (sym now ∙ h))
  ]
  act-IsWhole (unlock m) after e h =
      let (go_on, same) = unlock_same (holds p s.owner) w.part m acts in
      settle after (record s { held = release p m s.held }) h
        (locking-IsWhole (unlock m) (release p m s.held) e go_on same)
  act-IsWhole (write str) after e h =
      settle after (record s { stream = s.stream ++ str }) h (write-IsWhole str e)

-- The threads before their first acts.
unfoldable pub at_start :
    (Integer → Bytes) → (ℕ → Bytes) → (ℕ → Bytes) → Bool → (ℕ → List Call) → System
at_start show show_pointer show_id debug calls = record {
  owner = none;
  held = [];
  stream = [];
  rest = λ p. perform_all show show_pointer show_id debug p (calls p);
}

module _ (show : Integer → Bytes) (show_pointer : ℕ → Bytes) (show_id : ℕ → Bytes) (debug : Bool)
    (calls : ℕ → List Call) where
  pub Reach-IsWhole :
      {s : System}
      → ((p : ℕ) → All TakesMutex (calls p))
      → Reach (at_start show show_pointer show_id debug calls) s
      → IsWhole (λ p. all_lines show show_pointer show_id debug p (calls p)) s
  unfolding at_start joined IsPart holds left of_thread
  Reach-IsWhole m here = record {
    done = [];
    part = [];
    written = refl;
    begun = refl;
    logs = λ p. (perform_all-Writes show show_pointer show_id debug p (calls p) (m p)).0;
    kept = λ p. (perform_all-Writes show show_pointer show_id debug p (calls p) (m p)).1;
  }
  Reach-IsWhole m (next {t} r (step p a acts after e h)) =
      act-IsWhole (λ p. all_lines show show_pointer show_id debug p (calls p)) t p acts
        (Reach-IsWhole m r) a after e h
