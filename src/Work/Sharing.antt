-- ===== src/Work/Sharing.antt =====
-- work.cpp: the map against the queue, and the accesses to one object.
use drumlin.Prelude.{
  ℕ, ◌≡◌, refl, sym, ap, ◌∙◌, subst, ◌≢◌, ◌⊎◌, inl, inr, Bool, true, false, ◌||◌, none, some, List,
  [], ◌∷◌, ◌++◌, arith, ◌==◌, if◌then◌else◌, ==_iff, ==_refl, Bool-cases, Option-cases, some_of,
  Bytes, before, nat_eq, bytes_eq, lookup, lookup-insert,
}
use mathlib.Core.Option.{some_inj, none-ne-some}
use mathlib.Core.Bool.{false≢true}
use drumlin.Work.{
  Token, Store, Access, token_eq, equals_iff, set_work, get_work, add_descriptor, push_work,
}

-- A token is in the queue if it is in the map, and only then.
abbrev pub IsQueued : Store → Token → Type 0
IsQueued store t =
    ((lookup t store.work_map ≡ none) × (some_of (λ s. token_eq.beq s t) store.work_queue ≡ false))
    ⊎ ((object : ℕ) × (lookup t store.work_map ≡ some object)
        × (some_of (λ s. token_eq.beq s t) store.work_queue ≡ true))

beq_self : (t : Token) → token_eq.beq t t ≡ true
beq_self t = (equals_iff t t).1 refl

pushed_lookup :
    (before : Token → Token → Bool) (t j : Token) (pointer : ℕ) (store : Store)
    → lookup t store.work_map ≡ none
    → lookup j (push_work before t pointer store).work_map
      ≡ (if token_eq.beq t j then some pointer else lookup j store.work_map)
unfolding push_work
pushed_lookup before t j pointer store e = lookup-insert before t j pointer store.work_map e

pushed_queue :
    (before : Token → Token → Bool) (t : Token) (pointer : ℕ) (store : Store)
    → (push_work before t pointer store).work_queue ≡ store.work_queue ++ t ∷ []
unfolding push_work
pushed_queue before t pointer store = refl

get_work-other :
    (before : Token → Token → Bool) (t other : Token) (pointer : ℕ) (store : Store)
    → lookup t store.work_map ≡ none
    → (other ≡ t) ⊎ (get_work other (push_work before t pointer store) ≡ get_work other store)
unfolding get_work
get_work-other before t other pointer store e = elim (Bool-cases (token_eq.beq t other)) [
  | inl same ↦ inl (sym ((equals_iff t other).0 same))
  | inr differ ↦ inr (rw (pushed_lookup before t other pointer store e, differ, get_work))
]

some_of-snoc :
    (p : Token → Bool) (xs : List Token) (x : Token)
    → some_of p (xs ++ x ∷ []) ≡ (some_of p xs || p x)
some_of-snoc p [] x = ground arith
some_of-snoc p (y ∷ ys) x = ground (arith, some_of-snoc p ys x)

push_work-IsQueued :
    (before : Token → Token → Bool) (t other : Token) (pointer : ℕ) (store : Store)
    → lookup t store.work_map ≡ none
    → IsQueued store other
    → IsQueued (push_work before t pointer store) other
push_work-IsQueued before t other pointer store e q =
    rw
      (
        pushed_lookup before t other pointer store e,
        pushed_queue before t pointer store,
        some_of-snoc (λ s. token_eq.beq s other) store.work_queue t,
      )
      (elim (Bool-cases (token_eq.beq t other)) [
        | inl same ↦ rw same (inr (pointer, refl, ground arith))
        | inr differ ↦ rw differ (elim q [
          | inl (none_there, missing) ↦ inl (none_there, rw missing)
          | inr (object, there, present) ↦ inr (object, there, rw present)
        ])
      ])

-- setWork throws for a token that is known already. For a token that is not, it gives an access that getWork
-- gives from then on, it adds the token to the queue, and any other token leads where it led;
-- and a token that was in the queue exactly if it was in the map is so still.
pub set_work_cases :
    (before : Token → Token → Bool) (t other : Token) (pointer : ℕ) (store : Store)
    → IsQueued store other
    → ((old : Access) × (get_work t store ≡ some old) × (set_work before t pointer store ≡ none))
      ⊎ ((access : Access) × (after : Store) × (get_work t store ≡ none)
          × (set_work before t pointer store ≡ some (access, after))
          × (get_work t after ≡ some access)
          × (after.work_queue ≡ store.work_queue ++ t ∷ [])
          × ((other ≡ t) ⊎ (get_work other after ≡ get_work other store))
          × IsQueued after other)
unfolding set_work get_work
set_work_cases before t other pointer store q = elim (Option-cases (lookup t store.work_map)) [
  | inr (old, e) ↦ inl (record { token = t; object = old }, rw (e, get_work), rw (e, set_work))
  | inl e ↦
      let known : get_work t (push_work before t pointer store)
          ≡ some (record { token = t; object = pointer }) =
        rw (pushed_lookup before t t pointer store e, beq_self t, get_work) in
      inr (
        record { token = t; object = pointer },
        push_work before t pointer store,
        rw (e, get_work),
        rw (e, set_work),
        known,
        pushed_queue before t pointer store,
        get_work-other before t other pointer store e,
        push_work-IsQueued before t other pointer store e q,
      )
]

get_work_object :
    (t : Token) (a : Access) (store : Store)
    → get_work t store ≡ some a
    → lookup t store.work_map ≡ some a.object
unfolding get_work
get_work_object t a store e = elim (Option-cases (lookup t store.work_map)) [
  | inl f ↦
      let missing : get_work t store ≡ none = rw (f, get_work) in
      absurd (none-ne-some a (sym missing ∙ e))
  | inr (p, f) ↦
      let found : get_work t store ≡ some (record { token = t; object = p }) = rw (f, get_work) in
      f ∙ ap some (ap (λ (x : Access). x.object) (some_inj.0 (sym found ∙ e)))
]

-- No two tokens lead to one object.
abbrev pub IsSeparate : Store → Type 0
IsSeparate store =
    (t u : Token) (p : ℕ)
    → lookup t store.work_map ≡ some p
    → lookup u store.work_map ≡ some p
    → t ≡ u

push_work-IsSeparate :
    (before : Token → Token → Bool) (t : Token) (pointer : ℕ) (store : Store)
    → lookup t store.work_map ≡ none
    → IsSeparate store
    → ((u : Token) → lookup u store.work_map ≢ some pointer)
    → IsSeparate (push_work before t pointer store)
push_work-IsSeparate before t pointer store f sep fresh u v p hu hv =
    let at = pushed_lookup before t u pointer store f in
    let at' = pushed_lookup before t v pointer store f in
    elim (Bool-cases (token_eq.beq t u)) [
      | inl tu ↦ elim (Bool-cases (token_eq.beq t v)) [
        | inl tv ↦ sym ((equals_iff t u).0 tu) ∙ (equals_iff t v).0 tv
        | inr tv ↦
            let p_new = some_inj.0 (sym (at ∙ rw tu) ∙ hu) in
            absurd (fresh v (sym (at' ∙ rw tv) ∙ hv ∙ ap some (sym p_new)))
      ]
      | inr tu ↦ elim (Bool-cases (token_eq.beq t v)) [
        | inl tv ↦
            let p_new = some_inj.0 (sym (at' ∙ rw tv) ∙ hv) in
            absurd (fresh u (sym (at ∙ rw tu) ∙ hu ∙ ap some (sym p_new)))
        | inr tv ↦ sep u v p (sym (at ∙ rw tu) ∙ hu) (sym (at' ∙ rw tv) ∙ hv)
      ]
    ]

-- setWork keeps the objects of different tokens apart, if no token leads to the address of the object
-- that it creates.
set_work-IsSeparate :
    (before : Token → Token → Bool) (t : Token) (pointer : ℕ) (store after : Store)
    (access : Access)
    → IsSeparate store
    → ((u : Token) → lookup u store.work_map ≢ some pointer)
    → set_work before t pointer store ≡ some (access, after)
    → IsSeparate after
unfolding set_work
set_work-IsSeparate before t pointer store after access sep fresh e =
    elim (Option-cases (lookup t store.work_map)) [
      | inr (old, f) ↦
          let throws : set_work before t pointer store ≡ none = rw (f, set_work) in
          absurd (none-ne-some (access, after) (sym throws ∙ e))
      | inl f ↦
          let pushes : set_work before t pointer store
              ≡ some (record { token = t; object = pointer }, push_work before t pointer store) =
            rw (f, set_work) in
          let same = ap (λ (r : Access × Store). r.1) (some_inj.0 (sym pushes ∙ e)) in
          subst IsSeparate same (push_work-IsSeparate before t pointer store f sep fresh)
    ]

-- A descriptor that is added through an access of one token is added to what every access of that
-- token reads, and to what an access of another token reads it is not, as long as no two
-- tokens lead to one object.
add_descriptor-get_work :
    (t u : Token) (a b : Access) (descriptor : Bytes) (store : Store)
    → IsSeparate store
    → get_work t store ≡ some a
    → get_work u store ≡ some b
    → (add_descriptor a descriptor store).descriptors b.object ≡ (
        if token_eq.beq t u
        then store.descriptors b.object ++ descriptor ∷ []
        else store.descriptors b.object)
unfolding add_descriptor
add_descriptor-get_work t u a b descriptor store sep e f =
    let p = get_work_object t a store e in
    let q = get_work_object u b store f in
    elim (Bool-cases (token_eq.beq t u)) [
      | inl same ↦
          let t_is_u = (equals_iff t u).0 same in
          let one_object = some_inj.0 (sym p ∙ ap (λ x. lookup x store.work_map) t_is_u ∙ q) in
          rw (same, one_object, ==_refl b.object)
      | inr differ ↦ rw differ (elim (Bool-cases (b.object == a.object)) [
        | inl hit ↦
            let joint = (==_iff b.object a.object).0 hit in
            let t_is_u = sep t u a.object p (q ∙ ap some joint) in
            absurd (false≢true (sym differ ∙ (equals_iff t u).1 t_is_u))
        | inr miss ↦ rw miss
      ])
    ]
