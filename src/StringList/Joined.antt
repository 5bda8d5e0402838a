-- ===== src/StringList/Joined.antt =====
-- string_list.cpp, join(char) and operator==.
use drumlin.Prelude.{
  ℕ, ◌≡◌, refl, sym, ap, ◌∙◌, ◌≢◌, true, false, List, [], ◌∷◌, ◌++◌, append-nil, append_assoc,
  arith, ◌==◌, if◌then◌else◌, ==_refl, All, Bytes, Lacks, nat_eq, bytes_eq, lt_bytes,
}
use drumlin.StringList.{StringList, join, join_loop, set_difference, equals}

-- The texts between the separators; `cur` is the one being read, backwards never.
unfoldable pub split : ℕ → Bytes → Bytes → List Bytes
split c cur [] = cur ∷ []
split c cur (x ∷ s) =
    let next = cur ∷ split c [] s in
    let more = split c (cur ++ x ∷ []) s in if x == c then next else more

pub split-append :
    (c : ℕ) (cur s rest : Bytes) → Lacks c s → split c cur (s ++ rest) ≡ split c (cur ++ s) rest
unfolding split
split-append c cur [] rest h = rw append-nil
split-append c cur (x ∷ s) rest h =
    ground (arith, split-append c (cur ++ x ∷ []) s rest h.1, append_assoc cur (x ∷ []) s)

pub split_at_sep : (c : ℕ) (cur s : Bytes) → split c cur (c ∷ s) ≡ cur ∷ split c [] s
unfolding split
split_at_sep c cur s = rw (==_refl c)

-- Every item behind a separator.
separated : ℕ → StringList → Bytes
separated c [] = []
separated c (str ∷ rest) = c ∷ (str ++ separated c rest)

join_loop-separated :
    (c : ℕ) (list : StringList) (ss : Bytes) → join_loop c true list ss ≡ ss ++ separated c list
unfolding join_loop separated
join_loop-separated c [] ss = sym (append-nil ss)
join_loop-separated c (str ∷ rest) ss =
    join_loop-separated c rest ((ss ++ c ∷ []) ++ str) ∙ simp append_assoc

split-separated :
    (c : ℕ) (cur : Bytes) (list : StringList)
    → All (Lacks c) list
    → split c cur (separated c list) ≡ cur ∷ list
unfolding separated
split-separated c cur [] h = unfold split in refl
split-separated c cur (str ∷ rest) h =
    split_at_sep c cur (str ++ separated c rest)
    ∙ ap (◌∷◌ cur) (split-append c [] str (separated c rest) h.0 ∙ split-separated c str rest h.1)

-- A joined list can be split again: if it is not empty and no item holds the separator, the texts
-- between the separators are the items.
pub split-join :
    (c : ℕ) (list : StringList) → list ≢ [] → All (Lacks c) list → split c [] (join list c) ≡ list
unfolding join join_loop
split-join c [] h a = absurd (h refl)
split-join c (str ∷ rest) h a =
    rw (join_loop-separated c rest str, split-append c [] str (separated c rest) a.0)
      (split-separated c str rest a.1)

lt_bytes_irrefl : (x : Bytes) → lt_bytes x x ≡ false
lt_bytes_irrefl [] = refl
lt_bytes_irrefl (c ∷ x) = rw (==_refl c) (lt_bytes_irrefl x)

-- operator== tests inclusion, not equality: a list equals every list that it is a prefix of, and the
-- empty list equals all lists.
pub equals_prefix : (xs ys : StringList) → equals xs (xs ++ ys) ≡ true
unfolding equals set_difference
equals_prefix [] ys = refl
equals_prefix (x ∷ xs) ys = rw (lt_bytes_irrefl x, equals) (equals_prefix xs ys)
