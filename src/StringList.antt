-- ===== src/StringList.antt =====
-- string_list.h and string_list.cpp: a list of strings, the items of which may read "name=value".
-- Items are byte lists. boost::lexical_cast is the parameter `show`; boost::algorithm::join and the
-- insertion of a boost::any are not modelled, and boost's split is a parameter of Splitting. Iterators
-- are positions modulo 2 ^ 64.
pub mod Names
pub mod Attributes
pub mod Joined
pub mod Splitting
mod Tests
use drumlin.Prelude.{
  ℕ, ◌+◌, ◌%◌, ◌^◌, ◌≡◌, ◌↔◌, Bool, true, false, not, ◌&&◌, none, some, List, [], ◌∷◌, ◌++◌, arith,
  ltb, ◌==◌, if◌then◌else◌, length, get_elem?, take, drop, Bytes, eq_bytes, eq_bytes_iff, find_from,
  nat_eq, bytes_eq, lt_bytes, insert,
}

abbrev pub StringList : Type 0
StringList = List Bytes

-- std::list's operator==, which compares item by item.
abbrev pub eq_list : StringList → StringList → Bool
eq_list [] [] = true
eq_list [] (y ∷ ys) = false
eq_list (x ∷ xs) [] = false
eq_list (x ∷ xs) (y ∷ ys) = eq_bytes x y && eq_list xs ys

pub eq_list_iff : (xs ys : StringList) → (eq_list xs ys ≡ true) ↔ (xs ≡ ys)
eq_list_iff [] [] = ground arith
eq_list_iff [] (y ∷ ys) = ground arith
eq_list_iff (x ∷ xs) [] = ground arith
eq_list_iff (x ∷ xs) (y ∷ ys) = ground (arith, eq_bytes_iff x y, eq_list_iff xs ys)

-- operator<< of one string, in its four overloads.
unfoldable pub push_back : StringList → Bytes → StringList
push_back list str = list ++ str ∷ []

-- operator<< of a pair of strings.
unfoldable pub push_pair : StringList → Bytes × Bytes → StringList
unfolding push_back
push_pair list (name, value) = push_back list (name ++ (b'=' ∷ value))

-- The constructor from an initializer list.
of_initializer_loop : StringList → List Bytes → StringList
of_initializer_loop list [] = list
of_initializer_loop list (str ∷ rest) = of_initializer_loop (push_back list str) rest

unfoldable of_initializer : List Bytes → StringList
unfolding of_initializer_loop push_back
of_initializer strs = of_initializer_loop [] strs

-- operator=, whose argument may be the list itself: it is read after `clear()`.
unfoldable pub assign : Bool → StringList → StringList → StringList
assign same list rhs = let cleared : StringList = [] in cleared ++ (if same then cleared else rhs)

-- `item.begin() + lpos != item.end()`
pub is_before_end : ℕ → Bytes → Bool
is_before_end lpos item = not ((lpos % 2 ^ 64) == (length item % 2 ^ 64))

-- namesOnly
pub names_only : Bool → StringList → StringList
unfolding is_before_end
names_only strict [] = []
names_only strict (item ∷ rest) =
    let lpos = find_from 0 b'=' item in
    let names = names_only strict rest in
    if is_before_end lpos item
    then take lpos item ∷ names
    else if not strict
    then item ∷ names
    else names

-- toString
pub to_string : StringList → Bytes
to_string [] = []
to_string (str ∷ rest) = str ++ to_string rest

abbrev pub AttributeList : Type 0
AttributeList = List (Bytes × Bytes)

module _ (show : ℕ → Bytes) where
  pub attributes_loop : ℕ → StringList → AttributeList → AttributeList
  unfolding is_before_end
  attributes_loop ordinal [] m = m
  attributes_loop ordinal (item ∷ rest) m =
      let lpos = find_from 0 b'=' item in
      let value = drop ((lpos + 1) % 2 ^ 64) item in
      let named = attributes_loop ordinal rest (insert lt_bytes (take lpos item) value m) in
      let numbered = attributes_loop (ordinal + 1) rest (insert lt_bytes (show ordinal) item m) in
      if is_before_end lpos item then named else numbered

  -- operator attribute_list
  pub attributes : StringList → AttributeList
  unfolding attributes_loop
  attributes list = attributes_loop 0 list []

-- std::set_difference, as operator== calls it.
pub set_difference : StringList → StringList → StringList
set_difference [] ys = []
set_difference (x ∷ xs) [] = x ∷ xs
set_difference (x ∷ xs) (y ∷ ys) =
    let alone = x ∷ set_difference xs (y ∷ ys) in
    let skip = set_difference (x ∷ xs) ys in
    let both = set_difference xs ys in
    if lt_bytes x y then alone else if lt_bytes y x then skip else both

-- string_list::operator==, which only a non-const right operand selects.
unfoldable pub equals : StringList → StringList → Bool
unfolding set_difference
equals xs ys = elim (set_difference xs ys) [ [] ↦ true | _ ∷ _ ↦ false ]

-- What an access by index does; reading at `end()` is undefined.
pub data Access : Type 0 where
  item : Bytes → Access
  thrown undefined : Access

at_position : StringList → ℕ → Access
at_position list idx = elim (get_elem? list idx) [ some str ↦ item str | none ↦ undefined ]

-- operator[]
pub at : StringList → ℕ → Access
unfolding at_position
at list idx = if ltb (length list) idx then thrown else at_position list idx

pub join_loop : ℕ → Bool → StringList → Bytes → Bytes
join_loop c once [] ss = ss
join_loop c once (str ∷ rest) ss =
    join_loop c true rest ((if once then ss ++ c ∷ [] else ss) ++ str)

-- join(char c)
pub join : StringList → ℕ → Bytes
unfolding join_loop
join list c = join_loop c false list []

-- The stream operator: each item and a line end.
unfoldable pub to_stream : StringList → Bytes
to_stream [] = []
to_stream (line ∷ rest) = line ++ b'\n' ∷ to_stream rest
