-- ===== src/JsonConfig/Entries.antt =====
-- jsonconfig.cpp: the entries of the cache, and what an insertion leaves of them.
use drumlin.Prelude.{
  ℕ, ◌≤◌, ◌<◌, ◌≡◌, sym, ap, ◌∙◌, ◌≢◌, ◌⊎◌, inl, inr, true, false, Option, none, some, List, [],
  ◌∷◌, if_cases, Option-cases, All, Bytes, eq_bytes, eq_bytes_iff, nat_eq, bytes_eq, lt_bytes,
  lookup, place, insert, lookup-insert, insert_present,
}
use drumlin.JsonConfig.{Configs, cache}
use mathlib.Core.Option.{none-ne-some}
use drumlin.JsonConfig.Loading.{lookup-cache}

-- A cached path: null where the file is missing, and otherwise a configuration made since `base` that
-- holds what the file says.
abbrev pub IsFresh :
    {Value : Type 0} → (Bytes → Option Value) → ℕ → Configs Value → Bytes × ℕ → Type 0
IsFresh parse base s (path, p) =
    ((s.files path ≡ none) × (p ≡ 0))
    ⊎ ((text : Bytes) × (s.files path ≡ some text)
        × (parse text ≡ some (s.json_at p))
        × (base ≤ p)
        × (p < s.next))

abbrev pub IsCached : {Value : Type 0} → Configs Value → Bytes → Type 0
IsCached s path = (p : ℕ) × (lookup path s.jsons ≡ some p)

pub never : false ≢ true
never h = cc

pub place-All :
    (P : Bytes × ℕ → Type 0) (path : Bytes) (p : ℕ) (m : List (Bytes × ℕ))
    → P (path, p)
    → All P m
    → All P (place lt_bytes path p m)
unfolding place
place-All P path p [] h k = (h, tt)
place-All P path p ((q, n) ∷ m) h k =
    if_cases (All P) (lt_bytes path q) (λ e. (h, k)) (λ e. (k.0, place-All P path p m h k.1))

pub cache-All :
    (P : Bytes × ℕ → Type 0) (path : Bytes) (p : ℕ) (m : List (Bytes × ℕ))
    → P (path, p)
    → All P m
    → All P (cache m path p)
unfolding insert
cache-All P path p m h k = elim (Option-cases (lookup path m)) [
  | inl e ↦ rw (e, insert) (place-All P path p m h k)
  | inr (q, e) ↦ rw (e, insert) k
]

-- What is cached stays, by the same pointer.
pub cache-kept :
    (path q : Bytes) (p n : ℕ) (m : List (Bytes × ℕ))
    → lookup q m ≡ some n
    → lookup q (cache m path p) ≡ some n
cache-kept path q p n m h = elim (Option-cases (lookup path m)) [
  | inr (w, e) ↦ ap (λ x. lookup q x) (insert_present lt_bytes path p w m e) ∙ h
  | inl e ↦
      lookup-insert lt_bytes path q p m e
      ∙ if_cases (λ o. o ≡ some n) (eq_bytes path q)
          (λ g.
            absurd (none-ne-some n (sym e ∙ ap (λ x. lookup x m) ((eq_bytes_iff path q).0 g) ∙ h)))
          (λ g. h)
]

pub cache-found :
    (path : Bytes) (p : ℕ) (m : List (Bytes × ℕ))
    → (n : ℕ) × (lookup path (cache m path p) ≡ some n)
cache-found path p m = elim (Option-cases (lookup path m)) [
  | inl e ↦ (p, lookup-cache path p m e)
  | inr (w, e) ↦ (w, cache-kept path path p w m e)
]
