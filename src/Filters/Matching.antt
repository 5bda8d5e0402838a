-- ===== src/Filters/Matching.antt =====
-- use_ident.cpp, operator== of the filter classes.
use drumlin.Prelude.{
  ℕ, ◌≤◌, ◌<◌, ◌≡◌, refl, ◌↔◌, Bool, true, false, map, arith, All, Bytes, eq_bytes_refl, before,
  nat_eq, bytes_eq,
}
use drumlin.StringList.{eq_list_iff, to_string}
use drumlin.StringList.Names.{IsShort, names_only-map-before}
use drumlin.UseIdent.{UseIdent, get_hash}
use drumlin.Filters.{matches, hash_only_of, tick_range_of, names_of_ident, strict, exclusive}

-- A TickRange matches exactly the ticks from its least to its greatest one, and exclusive() takes both
-- ends away.
pub tick_range_iff :
    (sha256 : Bytes → Bytes) (unset min max : ℕ) (ident : UseIdent)
    → ((matches sha256 (tick_range_of unset min max) ident ≡ true)
        ↔ ((min ≤ ident.tick) × (ident.tick ≤ max)))
      × ((matches sha256 (exclusive (tick_range_of unset min max)) ident ≡ true)
          ↔ ((min < ident.tick) × (ident.tick < max)))
unfolding matches tick_range_of exclusive
tick_range_iff sha256 unset min max ident = (ground arith, ground arith)

-- A HashOnly filter matches every identity whose items run together to the same text, whatever the
-- hash function: where the items are divided does not matter, nor do source and tick.
pub hash_only_merges :
    (sha256 : Bytes → Bytes) (a b : UseIdent)
    → to_string a.specification ≡ to_string b.specification
    → matches sha256 (hash_only_of a) b ≡ true
unfolding matches hash_only_of get_hash
hash_only_merges sha256 a b h = rw h (eq_bytes_refl (sha256 (to_string b.specification)))

-- A NamesOnly filter of an identity matches exactly the identities with the same names in the same
-- order, where an item without '=' is a name; and strict() changes no match. All items are shorter
-- than `npos`.
names_iff :
    (sha256 : Bytes → Bytes) (a b : UseIdent)
    → All IsShort a.specification
    → All IsShort b.specification
    → ((matches sha256 (names_of_ident a) b ≡ true)
        ↔ (map (before b'=') a.specification ≡ map (before b'=') b.specification))
      × (matches sha256 (strict (names_of_ident a)) b ≡ matches sha256 (names_of_ident a) b)
unfolding matches names_of_ident strict
names_iff sha256 a b ha hb =
    let names_a = λ (s : Bool). names_only-map-before s a.specification ha in
    let names_b = λ (s : Bool). names_only-map-before s b.specification hb in
    rw (names_a false, names_b false, names_a true, names_b true) (eq_list_iff _ _, refl)
