-- ===== src/Metatypes.antt =====
-- metatypes.h: the names of an enumeration, as the macros ENUM, ENUMN and ENUMI make them, and
-- object.cpp, the children of an object. An enumeration is the list of its names with their values;
-- ENUMI puts a prefix before each. A value is a number of 32 bits, and the value 0 stands for none.
pub mod Names
use drumlin.Prelude.{
  ℕ, ◌+◌, Bool, true, false, not, List, [], ◌∷◌, ◌++◌, map, ◌==◌, if◌then◌else◌, some_of, Bytes,
  eq_bytes, nat_eq, bytes_eq,
}

abbrev pub Names : Type 0
Names = List (Bytes × ℕ)

-- The enumerators of ENUM, counted from a number.
unfoldable pub enum_from : ℕ → List Bytes → Names
enum_from n [] = []
enum_from n (elem ∷ elems) = (elem, n) ∷ enum_from (n + 1) elems

-- ENUM
unfoldable pub enum : List Bytes → Names
unfolding enum_from
enum elems = enum_from 0 elems

-- ENUMI, whose value 0 is `Unknown` and has no name.
unfoldable pub enum_i : Bytes → List Bytes → Names
unfolding enum_from
enum_i data_name elems = enum_from 1 (map (λ (elem : Bytes). data_name ++ elem) elems)

-- toString: the switch.
unfoldable pub to_string : Names → ℕ → Bytes
to_string [] e = []
to_string ((name, value) ∷ names) e = if value == e then name else to_string names e

-- toEnum: the chain of tests, with what `*ok` is then.
unfoldable pub to_enum : Names → Bytes → ℕ × Bool
to_enum [] s = (0, false)
to_enum ((name, value) ∷ names) s = if eq_bytes s name then (value, true) else to_enum names s

-- Object::attachChild
unfoldable pub attach_child : ℕ → List ℕ → List ℕ
attach_child child children =
    if not (some_of (λ c. c == child) children) then children ++ child ∷ [] else children
