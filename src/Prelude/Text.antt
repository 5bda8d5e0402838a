-- ===== src/Prelude/Text.antt =====
-- Text as the list of its bytes: equality, the C string functions and the parts of std::string
-- that the sources call.
use Prim.Native.Nat.{ℕ, suc, ◌-◌, ◌^◌}
use Prim.Native.Char.{code}
use Prim.Native.String.{String}
use mathlib.Core.Path.{◌≡◌}
use mathlib.Core.Logic.{◌↔◌}
use mathlib.Core.Bool.{Bool, true, false, ◌&&◌}
use mathlib.Core.List.{List, [], ◌∷◌}
use native.Mathlib.Omega.{arith}
use native.Mathlib.Decide.{ℕ_discrete}
use mathlib.Core.Logic.{◌⊎◌, inl, inr, ◌≢◌}
use mathlib.Core.Path.{refl}
use mathlib.Core.List.{◌++◌}
use Prim.Native.Nat.{◌+◌}
use drumlin.Prelude.Lists.{length, All}
use drumlin.Prelude.Tests.{◌==◌, if◌then◌else◌}

abbrev pub Bytes : Type 0
Bytes = List ℕ

-- The code points of a literal, its bytes where it is ASCII.
abbrev pub codes : String → Bytes
codes String.[] = []
codes (String.◌∷◌ c s) = code c ∷ codes s

abbrev pub eq_bytes : Bytes → Bytes → Bool
eq_bytes [] [] = true
eq_bytes [] (y ∷ ys) = false
eq_bytes (x ∷ xs) [] = false
eq_bytes (x ∷ xs) (y ∷ ys) = (x == y) && eq_bytes xs ys

pub eq_bytes_iff : (xs ys : Bytes) → (eq_bytes xs ys ≡ true) ↔ (xs ≡ ys)
eq_bytes_iff [] [] = ground arith
eq_bytes_iff [] (y ∷ ys) = ground arith
eq_bytes_iff (x ∷ xs) [] = ground arith
eq_bytes_iff (x ∷ xs) (y ∷ ys) = ground (arith, eq_bytes_iff xs ys)

-- `std::string::npos`, on a 64 bit machine.
abbrev pub npos : ℕ
npos = 2 ^ 64 - 1

-- `s.find(c)`: the first position of a byte, counted from `i`, or `npos`.
pub find_from : ℕ → ℕ → Bytes → ℕ
find_from i c [] = npos
find_from i c (x ∷ xs) = let later = find_from (suc i) c xs in if x == c then i else later

abbrev pub Lacks : ℕ → Bytes → Type 0
Lacks c = All (λ x. x ≢ c)

-- The part of a text before the first `c`, and the whole text where there is none.
pub before : ℕ → Bytes → Bytes
before c [] = []
before c (x ∷ xs) = if x == c then [] else x ∷ before c xs

pub find_from-Lacks : (i c : ℕ) (s : Bytes) → Lacks c s → find_from i c s ≡ npos
unfolding find_from
find_from-Lacks i c [] h = refl
find_from-Lacks i c (x ∷ xs) h = ground (arith, find_from-Lacks (suc i) c xs h.1)

pub find_from_split :
    (i c : ℕ) (k v : Bytes) → Lacks c k → find_from i c (k ++ (c ∷ v)) ≡ i + length k
unfolding find_from
find_from_split i c [] v h = ground arith
find_from_split i c (x ∷ k) v h = ground (arith, find_from_split (suc i) c k v h.1)

pub before_split : (c : ℕ) (k v : Bytes) → Lacks c k → before c (k ++ (c ∷ v)) ≡ k
unfolding before
before_split c [] v h = ground arith
before_split c (x ∷ k) v h = ground (arith, before_split c k v h.1)

pub before-Lacks : (c : ℕ) (s : Bytes) → Lacks c s → before c s ≡ s
unfolding before
before-Lacks c [] h = refl
before-Lacks c (x ∷ s) h = ground (arith, before-Lacks c s h.1)

-- Every text lacks a byte, or splits at its first occurrence.
pub split_cases :
    (c : ℕ) (s : Bytes) → Lacks c s ⊎ ((k : Bytes) × (v : Bytes) × (s ≡ k ++ (c ∷ v)) × Lacks c k)
split_cases c [] = inl tt
split_cases c (x ∷ s) = elim (ℕ_discrete x c) [
  | yes e ↦ inr ([], s, rw e, tt)
  | no d ↦ elim (split_cases c s) [
    | inl h ↦ inl (d, h)
    | inr (k, v, e, h) ↦ inr (x ∷ k, v, rw e, (d, h))
  ]
]

pub eq_bytes_refl : (s : Bytes) → eq_bytes s s ≡ true
eq_bytes_refl s = (eq_bytes_iff s s).1 refl
