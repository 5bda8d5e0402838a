-- ===== src/Registry/Entries.antt =====
-- registry.h: what a name leads to, and what is deleted.
use drumlin.Prelude.{
  ℕ, ◌≡◌, refl, sym, ap, ◌∙◌, ◌⊎◌, inl, inr, Bool, true, false, not, Option, none, some, List, [],
  ◌∷◌, ◌++◌, arith, if◌then◌else◌, Bool-cases, Option-cases, Bytes, eq_bytes, eq_bytes_iff, nat_eq,
  bytes_eq, lt_bytes, lookup, lookup-insert, insert_present, lookup-erase,
}
use drumlin.Registry.{Registry, add, remove, remove_all, list, find_entry, from_string}

-- The search by hand is that of the map.
find_entry-lookup :
    (name : Bytes) (entries : List (Bytes × ℕ)) → find_entry name entries ≡ lookup name entries
unfolding find_entry lookup
find_entry-lookup name [] = refl
find_entry-lookup name (e ∷ entries) =
    ground (arith, find_entry-lookup name entries, eq_bytes_iff name e.0, eq_bytes_iff e.0 name)

abbrev found : (ℕ → ℕ) → Option ℕ → ℕ
found cast none = 0
found cast (some src) = cast src

from_string-lookup :
    (cast : ℕ → ℕ) (name : Bytes) (self : Registry)
    → from_string cast name self ≡ found cast (lookup name self.entries)
unfolding from_string
from_string-lookup cast name self = elim (Option-cases (lookup name self.entries)) [
  | inl e ↦ rw (from_string, find_entry-lookup name self.entries, e)
  | inr (src, e) ↦ rw (from_string, find_entry-lookup name self.entries, e)
]

found-if :
    (cast : ℕ → ℕ) (b : Bool) (o p : Option ℕ)
    → found cast (if b then o else p) ≡ (if b then found cast o else found cast p)
found-if cast true o p = refl
found-if cast false o p = refl

deleted_if :
    (b : Bool) (xs : List ℕ) (x : ℕ)
    → (if not b then xs ++ x ∷ [] else xs) ≡ (if b then xs else xs ++ x ∷ [])
deleted_if true xs x = refl
deleted_if false xs x = refl

-- A name that leads nowhere.
absent :
    (cast : ℕ → ℕ) (str name : Bytes) (self : Registry)
    → lookup str self.entries ≡ none
    → from_string cast name self ≡ (if eq_bytes str name then 0 else from_string cast name self)
absent cast str name self e = elim (Bool-cases (eq_bytes str name)) [
  | inl same ↦ rw same (
      from_string-lookup cast name self
      ∙ ap (found cast)
          (ap (λ n. lookup n self.entries) (sym ((eq_bytes_iff str name).0 same)) ∙ e))
  | inr differ ↦ rw differ
]

-- add makes a name that led nowhere lead to the entity, and leaves any other name, and a name that
-- is taken, as they are; it deletes nothing.
from_string-add :
    (cast : ℕ → ℕ) (str name : Bytes) (src : ℕ) (self : Registry)
    → (((lookup str self.entries ≡ none)
          × (from_string cast name (add str src self)
              ≡ (if eq_bytes str name then cast src else from_string cast name self)))
        ⊎ ((old : ℕ) × (lookup str self.entries ≡ some old) × (add str src self ≡ self)))
      × ((add str src self).deleted ≡ self.deleted)
unfolding add
from_string-add cast str name src self = (
  elim (Option-cases (lookup str self.entries)) [
    | inl e ↦ inl (
      e,
      from_string-lookup cast name (add str src self)
          ∙ ap (found cast) (lookup-insert lt_bytes str name src self.entries e)
          ∙ found-if cast (eq_bytes str name) (some src) (lookup name self.entries)
          ∙ rw (from_string-lookup cast name self),
    )
    | inr (old, e) ↦ inr (
      old,
      e,
      ap (λ m. record self { entries = m }) (insert_present lt_bytes str src old self.entries e),
    )
  ],
  refl,
)

-- After remove a name leads nowhere and any other name leads where it led; what it led to is deleted,
-- once, if that is wanted, and nothing is deleted for a name that led nowhere.
pub from_string-remove :
    (cast : ℕ → ℕ) (str name : Bytes) (no_delete : Bool) (self : Registry)
    → (from_string cast name (remove str no_delete self)
        ≡ (if eq_bytes str name then 0 else from_string cast name self))
      × (((lookup str self.entries ≡ none) × (remove str no_delete self ≡ self))
          ⊎ ((src : ℕ) × (lookup str self.entries ≡ some src)
              × ((remove str no_delete self).deleted
                  ≡ (if no_delete then self.deleted else self.deleted ++ src ∷ []))))
unfolding remove
from_string-remove cast str name no_delete self = elim (Option-cases (lookup str self.entries)) [
  | inl e ↦ (rw (e, remove) (absent cast str name self e), inl (e, rw (e, remove)))
  | inr (src, e) ↦ (
    rw (e, remove)
        (from_string-lookup cast name _
          ∙ ap (found cast) (lookup-erase str name self.entries)
          ∙ found-if cast (eq_bytes str name) none (lookup name self.entries)
          ∙ rw (from_string-lookup cast name self)),
    inr (src, e, rw (e, remove) (deleted_if no_delete self.deleted src)),
  )
]

-- removeAll makes every name lead nowhere and deletes nothing, whether or not that is wanted.
pub from_string-remove_all :
    (cast : ℕ → ℕ) (name : Bytes) (no_delete : Bool) (self : Registry)
    → (from_string cast name (remove_all no_delete self) ≡ 0)
      × (list (remove_all no_delete self) ≡ [])
      × ((remove_all no_delete self).deleted ≡ self.deleted)
unfolding from_string find_entry remove_all list
from_string-remove_all cast name no_delete self = (refl, refl, refl)
