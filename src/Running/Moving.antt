-- ===== src/Running/Moving.antt =====
-- What the calls of a thread leave of the invariant, as long as it has no ThreadShutdown in its queue.
use drumlin.Prelude.{
  ℕ, ◌≡◌, refl, sym, ap, ◌∙◌, subst, ◌≢◌, inl, inr, Bool, true, false, Option, some, List, [], ◌∷◌,
  ◌++◌, arith, ◌==◌, ==_iff, ==_refl, Bool-cases, All, All-append, nat_eq, bytes_eq,
}
use mathlib.Core.Option.{some_inj, none-ne-some}
use drumlin.Event.{EventType, Event, in_range, thread_shutdown}
use drumlin.Threads.{Thread, Application, set_thread}
use drumlin.Running.{Pc, finished, set_pc, thread_event, exec_queue, work_or_quit}
use drumlin.Running.Counting.{Inv, IsQuiet, ended, set_thread-Inv}

work_or_quit-quiet :
    (t : EventType) (p : ℕ) (app : Application)
    → t ≢ thread_shutdown
    → (work_or_quit t p app).0 ≡ app
unfolding work_or_quit
work_or_quit-quiet thread_shutdown p app h = absurd (h refl)
work_or_quit-quiet _ p app h = refl

app_of :
    (o : Option (Application × Bool)) (left after : Application) (answer taken : Bool)
    → o ≡ some (left, answer)
    → o ≡ some (after, taken)
    → after ≡ left
app_of o left after answer taken g h = ap (λ x. x.0) (some_inj.0 (sym h ∙ g))

-- An event that is not a ThreadShutdown changes nothing that stands here.
pub thread_event-quiet :
    (takes : ℕ → Event → Bool) (e : Event) (p : ℕ) (app after : Application) (taken : Bool)
    → IsQuiet e
    → thread_event takes e p app ≡ some (after, taken)
    → after ≡ app
unfolding thread_event
thread_event-quiet takes e p app after taken h r =
    let worker = (app.thread_at p).worker in
    elim (Bool-cases (worker == 0)) [
      | inl z ↦ absurd (none-ne-some (after, taken) (sym (rw (z, thread_event)) ∙ r))
      | inr z ↦ elim (Bool-cases (takes worker e)) [
        | inl g ↦ app_of _ app after true taken (rw (z, g, thread_event)) r
        | inr g ↦ elim (Bool-cases (in_range e.event_type)) [
          | inl i ↦
              let (left, answer) = work_or_quit e.event_type p app in
              app_of _ left after answer taken (rw (z, g, i, thread_event)) r
              ∙ work_or_quit-quiet e.event_type p app h
          | inr i ↦ app_of _ app after false taken (rw (z, g, i, thread_event)) r
        ]
      ]
    ]

pub elsewhere : (p : ℕ) (c : Pc) (pc : ℕ → Pc) (q : ℕ) → (q == p) ≡ false → set_pc p c pc q ≡ pc q
elsewhere p c pc q e = rw e

pub at_home : (p : ℕ) (c : Pc) (pc : ℕ → Pc) → set_pc p c pc p ≡ c
at_home p c pc = rw (==_refl p)

not_ended : (c : Pc) → ended c ≡ 0 → c ≢ finished
not_ended c h e = absurd (omega (arith, h, ap ended e))

-- A thread that moves on, but not to its end, keeps the invariant with any change of it that leaves
-- its queue quiet.
pub moves-Inv :
    (p : ℕ) (c : Pc) (t : Thread) (app : Application) (pc : ℕ → Pc)
    → Inv app pc
    → ended (pc p) ≡ 0
    → ended c ≡ 0
    → All IsQuiet t.queue
    → Inv (set_thread p t app) (set_pc p c pc)
moves-Inv p c t app pc inv was now calm =
    set_thread-Inv p t app pc (set_pc p c pc) inv (elsewhere p c pc)
      (ap ended (at_home p c pc) ∙ now ∙ sym was)
      (λ h. absurd (not_ended c now (sym (at_home p c pc) ∙ h))) calm

-- A thread that moves on within its run and changes nothing.
pub at-Inv :
    (p : ℕ) (c : Pc) (app : Application) (pc : ℕ → Pc)
    → Inv app pc
    → ended (pc p) ≡ 0
    → ended c ≡ 0
    → Inv app (set_pc p c pc)
at-Inv p c app pc inv was now = record {
  counted = λ q. elim (Bool-cases (q == p)) [
    | inl e ↦ rw e (inv.counted q ∙ ap (λ x. ended (pc x)) ((==_iff q p).0 e) ∙ was ∙ sym now)
    | inr e ↦ rw e (inv.counted q)
  ];
  resting = λ q stands. elim (Bool-cases (q == p)) [
    | inl e ↦ let at : set_pc p c pc q ≡ c = rw e in absurd (not_ended c now (sym at ∙ stands))
    | inr e ↦ inv.resting q (sym (elsewhere p c pc q e) ∙ stands)
  ];
  quiet = inv.quiet;
}

-- A change of a thread where it stands.
pub stays-Inv :
    (p : ℕ) (t : Thread) (app : Application) (pc : ℕ → Pc)
    → Inv app pc
    → t.ready ≡ (app.thread_at p).ready
    → All IsQuiet t.queue
    → Inv (set_thread p t app) pc
stays-Inv p t app pc inv same calm =
    set_thread-Inv p t app pc pc inv (λ q e. refl) refl (λ h. same ∙ inv.resting p h) calm

pub exec_queue-Inv :
    (takes : ℕ → Event → Bool) (queue : List Event) (p : ℕ) (app after : Application) (taken : Bool)
    (pc : ℕ → Pc)
    → Inv app pc
    → All IsQuiet queue
    → exec_queue takes queue p app ≡ some (after, taken)
    → Inv after pc
unfolding exec_queue
exec_queue-Inv takes [] p app after taken pc inv calm r =
    subst (λ a. Inv a pc) (ap (λ x. x.0) (some_inj.0 r)) inv
exec_queue-Inv takes (e ∷ queue) p app after taken pc inv calm r =
    let t : Thread = record (app.thread_at p) { queue = queue } in
    subst (λ a. Inv a pc)
      (sym (thread_event-quiet takes e p (set_thread p t app) after taken calm.0 r))
      (stays-Inv p t app pc inv refl calm.1)

pub open_queue-quiet :
    (es : List Event) (d e : Event)
    → All IsQuiet es
    → IsQuiet d
    → IsQuiet e
    → All IsQuiet ((es ++ d ∷ []) ++ e ∷ [])
open_queue-quiet es d e h k l =
    All-append IsQuiet (es ++ d ∷ []) (e ∷ []) (All-append IsQuiet es (d ∷ []) h (k, tt)) (l, tt)
