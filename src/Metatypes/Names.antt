-- ===== src/Metatypes/Names.antt =====
-- metatypes.h: toString and toEnum undo one another.
use drumlin.Prelude.{
  ℕ, ◌≡◌, sym, ap, ◌∙◌, ◌≢◌, ◌⊎◌, inl, inr, true, false, [], ◌∷◌, ◌==◌, ==_iff, if_cases, All,
  Bytes, eq_bytes, eq_bytes_iff, nat_eq, bytes_eq,
}
use drumlin.Metatypes.{Names, to_string, to_enum}

-- No name, and no value, twice.
abbrev pub IsDistinct : Names → Type 0
IsDistinct [] = Unit
IsDistinct ((name, value) ∷ names) =
    All (λ (e : Bytes × ℕ). (e.0 ≢ name) × (e.1 ≢ value)) names × IsDistinct names

abbrev pub IsName : Bytes → ℕ → Names → Type 0
IsName name value [] = true ≡ false
IsName name value ((n, v) ∷ names) = ((n ≡ name) × (v ≡ value)) ⊎ IsName name value names

never : true ≢ false
never h = cc

-- An enumerator of a list without the name and the value of another has others.
other_name :
    (name n : Bytes) (value v : ℕ) (names : Names)
    → IsName name value names
    → All (λ (e : Bytes × ℕ). (e.0 ≢ n) × (e.1 ≢ v)) names
    → (name ≢ n) × (value ≢ v)
other_name name n value v [] h k = absurd (never h)
other_name name n value v ((m, w) ∷ names) (inl (a, b)) k = (λ e. k.0.0 (a ∙ e), λ e. k.0.1 (b ∙ e))
other_name name n value v ((m, w) ∷ names) (inr h) k = other_name name n value v names h k.1

to_string-name :
    (names : Names) (name : Bytes) (value : ℕ)
    → IsDistinct names
    → IsName name value names
    → to_string names value ≡ name
unfolding to_string
to_string-name [] name value d h = absurd (never h)
to_string-name ((n, v) ∷ names) name value d h =
    if_cases (λ s. s ≡ name) (v == value)
      (λ e. elim h [
        | inl (a, b) ↦ a
        | inr k ↦ absurd ((other_name name n value v names k d.0).1 (sym ((==_iff v value).0 e)))
      ])
      (λ e. elim h [
        | inl (a, b) ↦ absurd (never (sym ((==_iff v value).1 b) ∙ e))
        | inr k ↦ to_string-name names name value d.1 k
      ])

to_enum-name :
    (names : Names) (name : Bytes) (value : ℕ)
    → IsDistinct names
    → IsName name value names
    → to_enum names name ≡ (value, true)
unfolding to_enum
to_enum-name [] name value d h = absurd (never h)
to_enum-name ((n, v) ∷ names) name value d h =
    if_cases (λ r. r ≡ (value, true)) (eq_bytes name n)
      (λ e. elim h [
        | inl (a, b) ↦ ap (λ (x : ℕ). (x, true)) b
        | inr k ↦ absurd ((other_name name n value v names k d.0).0 ((eq_bytes_iff name n).0 e))
      ])
      (λ e. elim h [
        | inl (a, b) ↦ absurd (never (sym ((eq_bytes_iff name n).1 (sym a)) ∙ e))
        | inr k ↦ to_enum-name names name value d.1 k
      ])

-- In an enumeration without repetitions, an enumerator is printed as its name, and what is printed is
-- read back as the enumerator.
pub to_enum-to_string :
    (names : Names) (name : Bytes) (value : ℕ)
    → IsDistinct names
    → IsName name value names
    → (to_string names value ≡ name) × (to_enum names (to_string names value) ≡ (value, true))
to_enum-to_string names name value d h =
    let printed = to_string-name names name value d h in
    (printed, ap (to_enum names) printed ∙ to_enum-name names name value d h)
