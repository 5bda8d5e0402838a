-- ===== src/StringList/Attributes.antt =====
-- string_list.cpp, operator attribute_list, and the pairs that UseIdent::withAttr appends.
use drumlin.Prelude.{
  ℕ, ◌≡◌, refl, sym, ◌∙◌, inl, inr, Option, none, some, [], ◌∷◌, ◌++◌, map, append-nil,
  append_assoc, arith, Option-cases, All, Bytes, eq_bytes_iff, Lacks, nat_eq, bytes_eq, lt_bytes,
  lookup, insert, lookup-insert, insert_present,
}
use drumlin.StringList.{StringList, push_pair, AttributeList, attributes, attributes_loop}
use drumlin.StringList.Names.{IsShort, pair_item}

-- The items that operator<< makes of a list of pairs, appended to `list`.
unfoldable pub push_pairs : StringList → AttributeList → StringList
push_pairs list [] = list
push_pairs list (attr ∷ rest) = push_pairs (push_pair list attr) rest

abbrev pub item_of : Bytes × Bytes → Bytes
item_of (name, value) = name ++ (b'=' ∷ value)

pub push_pairs-map :
    (list : StringList) (attrs : AttributeList) → push_pairs list attrs ≡ list ++ map item_of attrs
unfolding push_pairs push_pair
push_pairs-map list [] = sym (append-nil list)
push_pairs-map list ((name, value) ∷ rest) =
    simp (push_pairs-map (list ++ item_of (name, value) ∷ []) rest, append_assoc)

-- An attribute whose name can be read back: it holds no '=', and the item is shorter than `npos`.
abbrev pub IsPlain : Bytes × Bytes → Type 0
IsPlain a = Lacks b'=' a.0 × IsShort (item_of a)

abbrev or_else : Option Bytes → Option Bytes → Option Bytes
or_else (some v) o = some v
or_else none o = o

or_else-none : (o : Option Bytes) → or_else o none ≡ o
or_else-none none = refl
or_else-none (some v) = refl

insert-first :
    (j k v : Bytes) (m rest : AttributeList)
    → or_else (lookup j (insert lt_bytes k v m)) (lookup j rest)
      ≡ or_else (lookup j m) (lookup j ((k, v) ∷ rest))
unfolding lookup
insert-first j k v m rest = elim (Option-cases (lookup k m)) [
  | inl absent ↦
      rw (lookup-insert lt_bytes k j v m absent) (ground (arith, absent, eq_bytes_iff k j))
  | inr (w, present) ↦
      rw (insert_present lt_bytes k v w m present) (ground (arith, present, eq_bytes_iff k j))
]

module _ (show : ℕ → Bytes) where
  attributes_loop-lookup :
      (ordinal : ℕ) (k : Bytes) (attrs m : AttributeList)
      → All IsPlain attrs
      → lookup k (attributes_loop show ordinal (map item_of attrs) m)
        ≡ or_else (lookup k m) (lookup k attrs)
  unfolding attributes_loop lookup
  attributes_loop-lookup ordinal k [] m h = sym (or_else-none (lookup k m))
  attributes_loop-lookup ordinal k ((name, value) ∷ rest) m h =
      let (inside, front, back) = pair_item name value h.0.1 h.0.0 in
      rw (inside, front, back)
        (attributes_loop-lookup ordinal k rest (insert lt_bytes name value m) h.1
          ∙ insert-first k name value m rest)

  -- The attributes of a list built from pairs: every name has the first value that it was given, and
  -- no other name is there, if the names hold no '=' and the items are shorter than `npos`.
  lookup-attributes :
      (k : Bytes) (attrs : AttributeList)
      → All IsPlain attrs
      → lookup k (attributes show (push_pairs [] attrs)) ≡ lookup k attrs
  unfolding attributes lookup
  lookup-attributes k attrs h = rw (push_pairs-map [] attrs) (attributes_loop-lookup 0 k attrs [] h)
