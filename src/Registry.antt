-- ===== src/Registry.antt =====
-- registry.h and registry.cpp, Registry: entities by name. `deleted` records each `delete` and `stopped`
-- each stop, in order. The dynamic_cast of fromString is a parameter, and 0 is the null pointer.
pub mod Entries
use drumlin.Prelude.{
  ℕ, Bool, not, Option, none, some, List, [], ◌∷◌, ◌++◌, map, if◌then◌else◌, Bytes, eq_bytes,
  nat_eq, bytes_eq, lt_bytes, lookup, insert, erase,
}

pub record Registry : Type 0 where
  pub entries : List (Bytes × ℕ)
  pub deleted : List ℕ
  pub stopped : List ℕ

-- add
pub add : Bytes → ℕ → Registry → Registry
unfolding insert
add str src self = record self { entries = insert lt_bytes str src self.entries }

-- remove
pub remove : Bytes → Bool → Registry → Registry
unfolding lookup erase
remove str no_delete self = elim (lookup str self.entries) [
  | none ↦ self
  | some src ↦ record self {
    entries = erase str self.entries;
    deleted = if not no_delete then self.deleted ++ src ∷ [] else self.deleted;
  }
]

-- remove of a Registry<WorkObject>, which stops the object first.
unfoldable pub remove_work_object : Bytes → Bool → Registry → Registry
unfolding lookup remove
remove_work_object str no_delete self = elim (lookup str self.entries) [
  | none ↦ self
  | some src ↦ remove str no_delete (record self { stopped = self.stopped ++ src ∷ [] })
]

-- removeAll, whose loop does nothing.
pub remove_all : Bool → Registry → Registry
remove_all no_delete self = record self { entries = [] }

-- list
pub list : Registry → List Bytes
list self = map (λ (e : Bytes × ℕ). e.0) self.entries

pub find_entry : Bytes → List (Bytes × ℕ) → Option ℕ
find_entry name [] = none
find_entry name (e ∷ entries) = if eq_bytes name e.0 then some e.1 else find_entry name entries

-- fromString
pub from_string : (ℕ → ℕ) → Bytes → Registry → ℕ
unfolding find_entry
from_string cast name self = elim (find_entry name self.entries) [ none ↦ 0 | some src ↦ cast src ]
