-- ===== src/StringList/Names.antt =====
-- string_list.cpp, namesOnly and operator[].
use drumlin.Prelude.{
  ℕ, suc, ◌+◌, ◌%◌, ◌^◌, ◌<◌, ◌≡◌, refl, ◌∙◌, subst, ◌⊎◌, inl, inr, Bool, true, some, [], ◌∷◌, ◌++◌,
  map, arith, ltb, ◌==◌, Bool-cases, length, get_elem?, get_elem?-some, get_elem?-none, take, drop,
  length-append, take-append, take_all, All, Bytes, npos, find_from, Lacks, before, find_from-Lacks,
  find_from_split, before_split, before-Lacks, split_cases, nat_eq, bytes_eq,
}
use drumlin.StringList.{
  StringList, names_only, is_before_end, at_position, item, thrown, undefined, at,
}

-- A text shorter than `npos`, as every std::string is.
abbrev pub IsShort : Bytes → Type 0
IsShort s = length s < npos

is_before_end-npos : (s : Bytes) → IsShort s → is_before_end npos s ≡ true
unfolding is_before_end
is_before_end-npos s h = ground arith

is_before_end_split :
    (k v : Bytes) → IsShort (k ++ (b'=' ∷ v)) → is_before_end (length k) (k ++ (b'=' ∷ v)) ≡ true
unfolding is_before_end
is_before_end_split k v h = ground (arith, length-append k (b'=' ∷ v))

-- What the loops of namesOnly and of the attribute conversion read in an item without '='.
pub plain_item :
    (s : Bytes)
    → IsShort s
    → Lacks b'=' s
    → (is_before_end (find_from 0 b'=' s) s ≡ true)
      × (take (find_from 0 b'=' s) s ≡ s)
      × (drop ((find_from 0 b'=' s + 1) % 2 ^ 64) s ≡ s)
plain_item s h l =
    rw (find_from-Lacks 0 b'=' s l) (is_before_end-npos s h, take_all npos s (omega arith), refl)

drop_past : (k v : Bytes) → drop (suc (length k)) (k ++ (b'=' ∷ v)) ≡ v
drop_past [] v = refl
drop_past (x ∷ k) v = drop_past k v

drop_past_sep :
    (k v : Bytes) → IsShort (k ++ (b'=' ∷ v)) → drop ((length k + 1) % 2 ^ 64) (k ++ (b'=' ∷ v)) ≡ v
drop_past_sep k v h =
    let small : (length k + 1) % 2 ^ 64 ≡ suc (length k) =
      omega (arith, length-append k (b'=' ∷ v)) in
    rw small (drop_past k v)

-- And in one of the form "name=value".
pub pair_item :
    (k v : Bytes)
    → IsShort (k ++ (b'=' ∷ v))
    → Lacks b'=' k
    → (is_before_end (find_from 0 b'=' (k ++ (b'=' ∷ v))) (k ++ (b'=' ∷ v)) ≡ true)
      × (take (find_from 0 b'=' (k ++ (b'=' ∷ v))) (k ++ (b'=' ∷ v)) ≡ k)
      × (drop ((find_from 0 b'=' (k ++ (b'=' ∷ v)) + 1) % 2 ^ 64) (k ++ (b'=' ∷ v)) ≡ v)
pair_item k v h l =
    let found : find_from 0 b'=' (k ++ (b'=' ∷ v)) ≡ length k =
      find_from_split 0 b'=' k v l ∙ omega arith in
    rw found (is_before_end_split k v h, take-append k (b'=' ∷ v), drop_past_sep k v h)

-- For items shorter than `npos`, namesOnly gives each item up to its first '=', and a whole item
-- where there is none, whatever `strict` says: the strict form drops nothing.
pub names_only-map-before :
    (strict : Bool) (list : StringList)
    → All IsShort list
    → names_only strict list ≡ map (before b'=') list
unfolding names_only
names_only-map-before strict [] h = refl
names_only-map-before strict (s ∷ rest) h = elim (split_cases b'=' s) [
  | inl l ↦
      let (inside, whole, _) = plain_item s h.0 l in
      rw (inside, whole, before-Lacks b'=' s l, names_only-map-before strict rest h.1)
  | inr (k, v, e, l) ↦
      let (inside, name, _) = pair_item k v (subst IsShort e h.0) l in
      rw (e, inside, name, before_split b'=' k v l, names_only-map-before strict rest h.1)
]

-- operator[] returns the item at each index below the size, throws at each above it, and reads past
-- the last item at the size itself, which its test lets through.
at_cases :
    (list : StringList) (idx : ℕ)
    → ((idx < length list) × ((s : Bytes) × (get_elem? list idx ≡ some s) × (at list idx ≡ item s)))
      ⊎ ((idx ≡ length list) × (at list idx ≡ undefined))
      ⊎ ((length list < idx) × (at list idx ≡ thrown))
unfolding at at_position
at_cases list idx = elim (Bool-cases (ltb idx (length list))) [
  | inl e ↦
      let inside : idx < length list = ground (arith, e) in
      let (s, f) = get_elem?-some list idx inside in inl (inside, (s, f, ground (arith, f)))
  | inr e ↦ elim (Bool-cases (idx == length list)) [
    | inl f ↦ inr (inl (ground (arith, f), ground (arith, f, get_elem?-none list idx)))
    | inr f ↦ inr (inr (ground (arith, e, f), ground (arith, e, f)))
  ]
]
