-- ===== src/JsonConfig/Keys.antt =====
-- jsonconfig.cpp, setDefaultValue, setKey and getKey: the members of an object.
use drumlin.Prelude.{
  ◌≡◌, refl, sym, ap, ◌∙◌, ◌≢◌, inl, inr, Option, none, some, List, [], ◌∷◌, if◌then◌else◌,
  Bool-cases, Option-cases, Bytes, eq_bytes, eq_bytes_iff, nat_eq, bytes_eq, lt_bytes, lookup,
  insert, lookup-insert, insert_present,
}
use drumlin.JsonConfig.{default_loop, insert_all, set_default_value, set_key, get_key}

-- The first of two values that is there.
abbrev pub or_else : {A : Type 0} → Option A → Option A → Option A
or_else (some a) b = some a
or_else none b = b

module _ {Value : Type 0} (members : Value → Option (List (Bytes × Value)))
    (of_members : List (Bytes × Value) → Value) where
  default_loop-insert_all :
      (l obj : List (Bytes × Value))
      → default_loop members of_members l obj ≡ insert_all members of_members l obj
  unfolding default_loop insert_all
  default_loop-insert_all [] obj = refl
  default_loop-insert_all ((key, value) ∷ l) obj = elim (Option-cases (lookup key obj)) [
    | inl e ↦ rw (e, default_loop) (default_loop-insert_all l (insert lt_bytes key value obj))
    | inr (old, e) ↦
        rw (e, default_loop)
          (default_loop-insert_all l obj
            ∙ ap (λ o. insert_all members of_members l o)
                (sym (insert_present lt_bytes key value old obj e)))
  ]

  or_else-insert :
      (j key : Bytes) (value : Value) (obj : List (Bytes × Value)) (next : Option Value)
      → or_else (lookup j (insert lt_bytes key value obj)) next
        ≡ or_else (lookup j obj) (if eq_bytes key j then some value else next)
  or_else-insert j key value obj next = elim (Option-cases (lookup key obj)) [
    | inl e ↦
        ap (λ o. or_else o next) (lookup-insert lt_bytes key j value obj e)
        ∙ elim (Bool-cases (eq_bytes key j)) [
          | inl g ↦ rw (g, sym (ap (λ k. lookup k obj) ((eq_bytes_iff key j).0 g)) ∙ e)
          | inr g ↦ rw g
        ]
    | inr (old, e) ↦
        ap (λ m. or_else (lookup j m) next) (insert_present lt_bytes key value old obj e)
        ∙ elim (Bool-cases (eq_bytes key j)) [
          | inl g ↦ rw (g, sym (ap (λ k. lookup k obj) ((eq_bytes_iff key j).0 g)) ∙ e)
          | inr g ↦ rw g
        ]
  ]

  lookup-insert_all :
      (j : Bytes) (l obj : List (Bytes × Value))
      → lookup j (insert_all members of_members l obj) ≡ or_else (lookup j obj) (lookup j l)
  unfolding insert_all lookup
  lookup-insert_all j [] obj = elim (Option-cases (lookup j obj)) [
    | inl e ↦ rw e
    | inr (v, e) ↦ rw e
  ]
  lookup-insert_all j ((key, value) ∷ l) obj =
      lookup-insert_all j l (insert lt_bytes key value obj)
      ∙ or_else-insert j key value obj (lookup j l)

  -- On an object, with a list that is not empty, setKey and setDefaultValue give the same object, if an
  -- object that is made of members has them: each member that was there keeps its value, and the
  -- others have the first value that the list gives them.
  pub set_key-set_default_value :
      (json : Value) (obj l : List (Bytes × Value))
      → ((m : List (Bytes × Value)) → members (of_members m) ≡ some m)
      → members json ≡ some obj
      → l ≢ []
      → (after : Value) × (set_key members of_members json l ≡ some after)
        × (set_default_value members of_members json l ≡ some after)
        × ((key : Bytes)
            → get_key members of_members after key ≡ or_else (lookup key obj) (lookup key l))
  unfolding set_key set_default_value get_key
  set_key-set_default_value json obj [] law e ne = absurd (ne refl)
  set_key-set_default_value json obj ((key, value) ∷ l) law e ne =
      let all = (key, value) ∷ l in
      let set = insert_all members of_members all obj in
      (
        of_members set,
        rw (e, set_key),
        rw (e, set_default_value) (ap (λ m. some (of_members m)) (default_loop-insert_all all obj)),
        λ k. rw (law set, get_key) (lookup-insert_all k all obj),
      )
