-- ===== src/StringList/Splitting.antt =====
-- string_list.cpp, fromString: a delimiter that is to be taken as a whole is replaced, wherever it
-- stands, by the two bytes of a sign, at whose bytes the text is then split. boost's split is the parameter
-- `split`, of the bytes to split at and the text; the loop has a bound on its rounds, and is `none` there.
use drumlin.Prelude.{
  ℕ, zero, suc, ◌+◌, ◌<◌, ◌≡◌, refl, sym, ap, ◌∙◌, ◌≢◌, inl, inr, Bool, false, not, Option, none,
  some, [], ◌∷◌, ◌++◌, arith, ◌==◌, if◌then◌else◌, ==_iff, ==_refl, Bool-cases, Option-cases, Bytes,
  nat_eq, bytes_eq,
}
use mathlib.Core.Option.{some_inj, none-ne-some}
use drumlin.StringList.{StringList}

-- The two bytes of "¬".
abbrev pub sign : Bytes → Bytes
sign s = 194 ∷ 172 ∷ s

-- The rest of a text that begins with another.
unfoldable pub strip : Bytes → Bytes → Option Bytes
strip [] s = some s
strip (d ∷ ds) [] = none
strip (d ∷ ds) (x ∷ s) = let rest = strip ds s in if d == x then rest else none

-- `s.find(delim)`, as the parts of the text before and behind.
pub find_parts : Bytes → Bytes → Option (Bytes × Bytes)
unfolding strip
find_parts delim [] = elim (strip delim []) [ none ↦ none | some rest ↦ some ([], rest) ]
find_parts delim (x ∷ s) =
    let later = find_parts delim s in
    elim (strip delim (x ∷ s)) [
      | some rest ↦ some ([], rest)
      | none ↦ elim later [ none ↦ none | some (pre, post) ↦ some (x ∷ pre, post) ]
    ]

-- The loop.
pub replace_delimiters : ℕ → Bytes → Bytes → Option Bytes
unfolding find_parts
replace_delimiters zero delim s = none
replace_delimiters (suc fuel) delim s =
    let more = λ (t : Bytes). replace_delimiters fuel delim t in
    elim (find_parts delim s) [ none ↦ some s | some (pre, post) ↦ more (pre ++ sign post) ]

-- string_list::fromString
pub from_string : (Bytes → Bytes → StringList) → ℕ → Bytes → Bytes → Bool → Option StringList
unfolding replace_delimiters
from_string split fuel to_split delim all =
    let replaced = replace_delimiters fuel delim to_split in
    if not all
    then some (split delim to_split)
    else elim replaced [ none ↦ none | some s ↦ some (split (sign []) s) ]

abbrev pub count_of : ℕ → Bytes → ℕ
count_of c [] = 0
count_of c (x ∷ s) = (if x == c then 1 else 0) + count_of c s

count_of-append : (c : ℕ) (s t : Bytes) → count_of c (s ++ t) ≡ count_of c s + count_of c t
count_of-append c [] t = omega arith
count_of-append c (x ∷ s) t = omega (arith, count_of-append c s t)

strip-append : (ds s rest : Bytes) → strip ds s ≡ some rest → s ≡ ds ++ rest
unfolding strip
strip-append [] s rest h = some_inj.0 h
strip-append (d ∷ ds) [] rest h = absurd (none-ne-some rest h)
strip-append (d ∷ ds) (x ∷ s) rest h = elim (Bool-cases (d == x)) [
  | inl e ↦
      let same = (==_iff d x).0 e in
      let on : (if d == x then strip ds s else none) ≡ strip ds s = rw e in
      ap (λ y. y ∷ s) (sym same) ∙ ap (λ t. d ∷ t) (strip-append ds s rest (sym on ∙ h))
  | inr e ↦
      let off : (if d == x then strip ds s else none) ≡ none = rw e in
      absurd (none-ne-some rest (sym off ∙ h))
]

-- Where a delimiter is found, it stands between the two parts.
find_parts-append :
    (delim s : Bytes) (parts : Bytes × Bytes)
    → find_parts delim s ≡ some parts
    → s ≡ parts.0 ++ (delim ++ parts.1)
unfolding find_parts
find_parts-append delim [] parts h = elim (Option-cases (strip delim [])) [
  | inr (rest, e) ↦
      let now : find_parts delim [] ≡ some ([], rest) = rw (e, find_parts) in
      let same = some_inj.0 (sym now ∙ h) in
      strip-append delim [] rest e ∙ ap (λ (p : Bytes × Bytes). p.0 ++ (delim ++ p.1)) same
  | inl e ↦
      let now : find_parts delim [] ≡ none = rw (e, find_parts) in
      absurd (none-ne-some parts (sym now ∙ h))
]
find_parts-append delim (x ∷ s) parts h = elim (Option-cases (strip delim (x ∷ s))) [
  | inr (rest, e) ↦
      let now : find_parts delim (x ∷ s) ≡ some ([], rest) = rw (e, find_parts) in
      let same = some_inj.0 (sym now ∙ h) in
      strip-append delim (x ∷ s) rest e ∙ ap (λ (p : Bytes × Bytes). p.0 ++ (delim ++ p.1)) same
  | inl e ↦ elim (Option-cases (find_parts delim s)) [
    | inl f ↦
        let now : find_parts delim (x ∷ s) ≡ none = rw (e, f, find_parts) in
        absurd (none-ne-some parts (sym now ∙ h))
    | inr (later, f) ↦
        let now : find_parts delim (x ∷ s) ≡ some (x ∷ later.0, later.1) = rw (e, f, find_parts) in
        let same = some_inj.0 (sym now ∙ h) in
        ap (λ t. x ∷ t) (find_parts-append delim s later f)
        ∙ ap (λ (p : Bytes × Bytes). p.0 ++ (delim ++ p.1)) same
  ]
]

fewer_left :
    (d : ℕ) (ds pre post s : Bytes) (fuel : ℕ)
    → d ≢ 194
    → d ≢ 172
    → s ≡ pre ++ ((d ∷ ds) ++ post)
    → count_of d s < suc fuel
    → count_of d (pre ++ sign post) < fuel
fewer_left d ds pre post s fuel a b cut h =
    let whole : count_of d s ≡ count_of d pre + (count_of d ds + count_of d post + 1) =
      ap (count_of d) cut
      ∙ rw (count_of-append d pre ((d ∷ ds) ++ post), count_of-append d ds post, ==_refl d)
          (omega arith) in
    let na : (194 == d) ≡ false = ground (arith, a) in
    let nb : (172 == d) ≡ false = ground (arith, b) in
    rw (count_of-append d pre (sign post), na, nb) (omega (arith, h, whole))

-- A delimiter whose first byte is none of the sign's: as many rounds as the text has that byte, and one
-- more, are enough for the loop, and the text it leaves has the delimiter no more.
pub replace_delimiters_ends :
    (fuel d : ℕ) (ds s : Bytes)
    → d ≢ 194
    → d ≢ 172
    → count_of d s < fuel
    → (left : Bytes) × (replace_delimiters fuel (d ∷ ds) s ≡ some left)
      × (find_parts (d ∷ ds) left ≡ none)
unfolding replace_delimiters
replace_delimiters_ends zero d ds s a b h = absurd (omega arith)
replace_delimiters_ends (suc fuel) d ds s a b h = elim (Option-cases (find_parts (d ∷ ds) s)) [
  | inl e ↦ (s, rw (e, replace_delimiters), e)
  | inr ((pre, post), e) ↦
      let cut = find_parts-append (d ∷ ds) s (pre, post) e in
      let fewer : count_of d (pre ++ sign post) < fuel =
        fewer_left d ds pre post s fuel a b cut h in
      let (left, ends, none_left) =
        replace_delimiters_ends fuel d ds (pre ++ sign post) a b fewer in
      (left, rw (e, replace_delimiters) ends, none_left)
]

-- With the empty delimiter the loop has no end.
pub replace_delimiters_empty : (fuel : ℕ) (s : Bytes) → replace_delimiters fuel [] s ≡ none
unfolding replace_delimiters find_parts strip
replace_delimiters_empty zero s = refl
replace_delimiters_empty (suc fuel) [] = replace_delimiters_empty fuel (sign [])
replace_delimiters_empty (suc fuel) (x ∷ s) = replace_delimiters_empty fuel (sign (x ∷ s))
