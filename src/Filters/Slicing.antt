-- ===== src/Filters/Slicing.antt =====
-- use_ident.cpp, operator&&, operator|| and operator! of the filters.
use drumlin.Prelude.{ℕ, ◌≡◌, refl, true, false, Bytes, nat_eq, bytes_eq}
use drumlin.UseIdent.{UseIdent}
use drumlin.Filters.{Filter, matches, conjunction, disjunction, negation}

-- A combined filter forgets what it is made of: whichever filters are combined, a conjunction and a
-- disjunction match no identity, and a negation matches every identity.
pub combined_constant :
    (sha256 : Bytes → Bytes) (unset : ℕ) (f g : Filter) (ident : UseIdent)
    → (matches sha256 (conjunction unset f g) ident ≡ false)
      × (matches sha256 (disjunction unset f g) ident ≡ false)
      × (matches sha256 (negation unset f) ident ≡ true)
unfolding matches conjunction disjunction negation
combined_constant sha256 unset f g ident = (refl, refl, refl)
