-- ===== src/UseIdent/Order.antt =====
-- use_ident.cpp, operator<, operator== and the hash.
use drumlin.Prelude.{ℕ, ◌≡◌, refl, ◌≢◌, ◌↔◌, true, false, arith, Bytes, nat_eq, bytes_eq}
use drumlin.StringList.{eq_list_iff}
use drumlin.UseIdent.{UseIdent, less, equals, hash}

-- operator< is irreflexive, asymmetric and transitive.
pub less_order :
    (a b c : UseIdent)
    → (less a a ≡ false)
      × (less a b ≡ true → less b a ≡ false)
      × (less a b ≡ true → less b c ≡ true → less a c ≡ true)
unfolding less
less_order a b c = (ground arith, λ h. ground arith, λ h k. ground arith)

-- It is no strict weak order: between two identities that are in order there is always a third which
-- is in order with neither of them, so that being in no order is not transitive.
pub less_not_weak :
    (a b : UseIdent)
    → less a b ≡ true
    → (c : UseIdent) × (less a c ≡ false)
      × (less c a ≡ false)
      × (less c b ≡ false)
      × (less b c ≡ false)
unfolding less
less_not_weak a b h =
    (record a { tick = b.tick }, ground arith, ground arith, ground arith, ground arith)

-- operator== is equality of source, tick and specification; the name is not compared.
pub equals_iff :
    (a b : UseIdent)
    → (equals a b ≡ true)
      ↔ ((a.source ≡ b.source) × (a.tick ≡ b.tick) × (a.specification ≡ b.specification))
unfolding equals
equals_iff a b = ground (arith, eq_list_iff a.specification b.specification)

-- Equal identities with equal names have equal hashes, whatever hash functions are combined.
pub equals-hash :
    (combine : ℕ → Bytes → Bytes → ℕ → ℕ) (a b : UseIdent)
    → equals a b ≡ true
    → a.source_name ≡ b.source_name
    → hash combine a ≡ hash combine b
unfolding hash
equals-hash combine a b h n = let (s, t, l) = (equals_iff a b).0 h in rw (s, t, l, n)

-- The names matter: wherever the combined hash tells two names apart, there are identities that are
-- equal and have different hashes.
pub hash_tells_names :
    (combine : ℕ → Bytes → Bytes → ℕ → ℕ) (a : UseIdent) (name : Bytes)
    → hash combine a ≢ hash combine (record a { source_name = name })
    → ¬ ((x y : UseIdent) → equals x y ≡ true → hash combine x ≡ hash combine y)
hash_tells_names combine a name ne all =
    ne (all a (record a { source_name = name }) ((equals_iff _ _).1 (refl, refl, refl)))
