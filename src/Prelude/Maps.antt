-- ===== src/Prelude/Maps.antt =====
-- The maps of the C++ library as association lists: std::map, whose order is that of its keys, and
-- std::unordered_map, whose order is unspecified and stays a parameter.
use mathlib.Core.Path.{◌≡◌, refl}
use mathlib.Core.Logic.{◌↔◌}
use mathlib.Core.Bool.{Bool, true, false, not}
use mathlib.Core.List.{List, [], ◌∷◌}
use mathlib.Core.Option.{Option, none, some}
use native.Mathlib.Omega.{arith}
use drumlin.Prelude.Tests.{◌==◌ as nat_beq, ltb, ==_iff, if◌then◌else◌}
use drumlin.Prelude.Lists.{keep}
use drumlin.Prelude.Text.{Bytes, eq_bytes, eq_bytes_iff}
use Prim.Native.Nat.{ℕ}

-- operator== of a key type.
pub record Eq {ℓ} (A : Type ℓ) : Type ℓ where
  pub beq : A → A → Bool
  pub beq_iff : (a b : A) → (beq a b ≡ true) ↔ (a ≡ b)

instance abbrev pub nat_eq : Eq ℕ
nat_eq = record { beq = nat_beq; beq_iff = ==_iff }

instance abbrev pub bytes_eq : Eq Bytes
bytes_eq = record { beq = eq_bytes; beq_iff = eq_bytes_iff }

-- std::less<std::string>.
abbrev pub lt_bytes : Bytes → Bytes → Bool
lt_bytes [] [] = false
lt_bytes [] (y ∷ ys) = true
lt_bytes (x ∷ xs) [] = false
lt_bytes (x ∷ xs) (y ∷ ys) = if nat_beq x y then lt_bytes xs ys else ltb x y

module _ {ℓ κ} {K : Type ℓ} {V : Type κ} ⦃e : Eq K⦄ where
  -- `m.find(k)`
  unfoldable pub lookup : K → List (K × V) → Option V
  lookup k [] = none
  lookup k ((j, v) ∷ m) = if e.beq j k then some v else lookup k m

  unfoldable pub place : (K → K → Bool) → K → V → List (K × V) → List (K × V)
  place before k v [] = (k, v) ∷ []
  place before k v ((j, w) ∷ m) =
      if before k j then (k, v) ∷ (j, w) ∷ m else (j, w) ∷ place before k v m

  -- `m.insert({k, v})`: a key that is there keeps its value.
  unfoldable pub insert : (K → K → Bool) → K → V → List (K × V) → List (K × V)
  unfolding lookup place
  insert before k v m = elim (lookup k m) [ none ↦ place before k v m | some _ ↦ m ]

  -- `m.erase(k)`
  unfoldable pub erase : K → List (K × V) → List (K × V)
  erase k m = keep (λ p. not (e.beq p.0 k)) m

  pub lookup-place :
      (before : K → K → Bool) (k j : K) (v : V) (m : List (K × V))
      → lookup k m ≡ none
      → lookup j (place before k v m) ≡ (if e.beq k j then some v else lookup j m)
  unfolding lookup place
  lookup-place before k j v [] h = refl
  lookup-place before k j v ((i, w) ∷ m) h =
      ground (arith, e.beq_iff k j, e.beq_iff i k, e.beq_iff i j, lookup-place before k j v m)

  pub lookup-insert :
      (before : K → K → Bool) (k j : K) (v : V) (m : List (K × V))
      → lookup k m ≡ none
      → lookup j (insert before k v m) ≡ (if e.beq k j then some v else lookup j m)
  unfolding insert
  lookup-insert before k j v m h = rw (h, insert) (lookup-place before k j v m h)

  pub insert_present :
      (before : K → K → Bool) (k : K) (v w : V) (m : List (K × V))
      → lookup k m ≡ some w
      → insert before k v m ≡ m
  unfolding insert
  insert_present before k v w m h = rw (h, insert)

  pub lookup-erase :
      (k j : K) (m : List (K × V)) → lookup j (erase k m) ≡ (if e.beq k j then none else lookup j m)
  unfolding lookup erase
  lookup-erase k j [] = ground arith
  lookup-erase k j ((i, w) ∷ m) =
      ground (arith, e.beq_iff k j, e.beq_iff i k, e.beq_iff i j, lookup-erase k j m)
