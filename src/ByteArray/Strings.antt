-- ===== src/ByteArray/Strings.antt =====
-- byte_array.cpp, append of strings against operator string_list.
use drumlin.Prelude.{
  ℕ, zero, suc, ◌+◌, ◌<◌, ◌≡◌, refl, ◌∙◌, true, Option, some, List, [], ◌∷◌, ◌++◌, append-nil,
  append_assoc, arith, ltb, length, drop, length-append, take_all, drop-append, All, Bytes, Lacks,
  nat_eq, bytes_eq,
}
use drumlin.StringList.{StringList, push_back}
use drumlin.ByteArray.{
  ByteArray, ◌>>=◌, append, append_string, move_behind, from_data, from_string, c_string,
  strings_loop, to_string_list,
}

-- append(std::string) for each string in turn.
pub append_strings : ByteArray → List Bytes → Option ByteArray
append_strings b [] = some b
append_strings b (s ∷ rest) = do next ← append_string b s; append_strings next rest

-- The strings, each with its final 0.
terminated : List Bytes → Bytes
terminated [] = []
terminated (s ∷ rest) = s ++ 0 ∷ terminated rest

abbrev pub owned : Bytes → ByteArray
owned bytes = record { block = some bytes; size = length bytes; destroy = true }

append_string-owned :
    (bytes s : Bytes) → append_string (owned bytes) s ≡ some (owned (bytes ++ (s ++ 0 ∷ [])))
unfolding append_string append move_behind
append_string-owned bytes s = ground (
  arith,
  length-append s (0 ∷ []),
  length-append bytes (s ++ 0 ∷ []),
  take_all (length bytes) bytes,
  take_all (length s + 1) (s ++ 0 ∷ []),
)

from_string-owned : (s : Bytes) → from_string s ≡ some (owned (s ++ 0 ∷ []))
unfolding from_string append move_behind
from_string-owned s =
    ground (arith, length-append s (0 ∷ []), take_all (length s + 1) (s ++ 0 ∷ []))

pub from_data-owned :
    (bytes : Bytes) → 0 < length bytes → from_data bytes (length bytes) ≡ some (owned bytes)
unfolding from_data append move_behind
from_data-owned bytes h = ground (arith, take_all (length bytes) bytes)

append_strings-owned :
    (bytes : Bytes) (strs : List Bytes)
    → append_strings (owned bytes) strs ≡ some (owned (bytes ++ terminated strs))
unfolding append_strings terminated
append_strings-owned bytes [] = rw (append-nil bytes)
append_strings-owned bytes (s ∷ rest) =
    rw (append_string-owned bytes s)
      (append_strings-owned (bytes ++ (s ++ 0 ∷ [])) rest ∙ simp append_assoc)

c_string-append : (s rest : Bytes) → Lacks 0 s → c_string (s ++ 0 ∷ rest) ≡ some s
unfolding c_string
c_string-append [] rest h = refl
c_string-append (c ∷ s) rest h = ground (arith, c_string-append s rest h.1)

strings_step :
    (rounds pos len : ℕ) (bytes s : Bytes) (list : StringList)
    → ltb pos len ≡ true
    → c_string (drop pos bytes) ≡ some s
    → strings_loop (suc rounds) bytes pos len list
      ≡ strings_loop rounds bytes (pos + (length s + 1)) len (list ++ s ∷ [])
unfolding strings_loop push_back
strings_step rounds pos len bytes s list inside found = ground (arith, inside, found)

in_reach : (done more : Bytes) → 0 < length more → ltb (length done) (length (done ++ more)) ≡ true
in_reach done more h = ground (arith, length-append done more)

strings_loop-terminated :
    (rounds : ℕ) (done : Bytes) (strs list : StringList)
    → All (Lacks 0) strs
    → length (terminated strs) < rounds
    → strings_loop rounds
        (done ++ terminated strs)
        (length done)
        (length (done ++ terminated strs))
        list
      ≡ some (list ++ strs)
unfolding strings_loop terminated push_back
strings_loop-terminated zero done strs list h f = absurd (omega arith)
strings_loop-terminated (suc rounds) done [] list h f =
    ground (arith, append-nil done, append-nil list)
strings_loop-terminated (suc rounds) done (s ∷ rest) list h f =
    let tail = terminated rest in
    let moved : done ++ (s ++ 0 ∷ tail) ≡ (done ++ (s ++ 0 ∷ [])) ++ tail = simp append_assoc in
    let pos : length done + (length s + 1) ≡ length (done ++ (s ++ 0 ∷ [])) =
      omega (arith, length-append done (s ++ 0 ∷ []), length-append s (0 ∷ [])) in
    let found : c_string (drop (length done) (done ++ (s ++ 0 ∷ tail))) ≡ some s =
      rw (drop-append done (s ++ 0 ∷ tail)) (c_string-append s tail h.0) in
    strings_step rounds (length done) _ _ s list
      (in_reach done (s ++ 0 ∷ tail) (omega (arith, length-append s (0 ∷ tail)))) found
    ∙ rw (moved, pos)
        (strings_loop-terminated rounds (done ++ (s ++ 0 ∷ [])) rest (list ++ s ∷ []) h.1
            (omega (arith, length-append s (0 ∷ tail)))
          ∙ simp append_assoc)

-- A byte_array made from a string, with any number of strings appended, is read back by the
-- conversion to a string_list as those strings in their order, if none of them holds a 0.
pub to_string_list-append_strings :
    (s : Bytes) (strs : List Bytes)
    → All (Lacks 0) (s ∷ strs)
    → (from_string s >>= λ b. append_strings b strs >>= λ full. to_string_list full)
      ≡ some (s ∷ strs)
unfolding to_string_list terminated
to_string_list-append_strings s strs h =
    let all = terminated (s ∷ strs) in
    let joined : (s ++ 0 ∷ []) ++ terminated strs ≡ all = simp append_assoc in
    rw (from_string-owned s, append_strings-owned (s ++ 0 ∷ []) strs, joined)
      (strings_loop-terminated (suc (length all)) [] (s ∷ strs) [] h (omega arith))
