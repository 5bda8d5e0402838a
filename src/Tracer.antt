-- ===== src/Tracer.antt =====
-- cursor.h and cursor.cpp, Tracer::addBlock: the names of functions are interned in the roll, and a stack
-- is the list of their places. A block is given as the lines that boost's split makes of it, and
-- `matched` gives the name that the regular expression finds in a line. front of an empty list is
-- undefined. The unwinding of the frames and the writing of the file are left out.
pub mod Interning
pub mod Unwinding
mod Tests
use mathlib.Core.Option
use drumlin.Prelude.{
  ℕ, ◌+◌, Option, none, some, List, [], ◌∷◌, ◌++◌, map, if◌then◌else◌, length, Bytes, eq_bytes,
  nat_eq, bytes_eq,
}

pub record Tracer : Type 0 where
  pub roll : List Bytes
  pub chain : List (List ℕ)

-- std::find_if in the roll, from place i on.
pub find_name : Bytes → List Bytes → ℕ → Option ℕ
find_name name [] i = none
find_name name (x ∷ xs) i = if eq_bytes name x then some i else find_name name xs (i + 1)

-- The place of a name, and the roll with it.
pub intern : Bytes → List Bytes → ℕ × List Bytes
unfolding find_name
intern name roll = elim (find_name name roll 0) [
  | some i ↦ (i, roll)
  | none ↦ (length roll, roll ++ name ∷ [])
]

module _ (matched : Bytes → Option Bytes) where
  -- The names of the lines before the first empty line.
  pub names_of : List Bytes → Option (List Bytes)
  names_of [] = none
  names_of ([] ∷ lines) = some []
  names_of ((c ∷ line) ∷ lines) =
      let rest = names_of lines in
      elim (matched (c ∷ line)) [
        | none ↦ rest
        | some name ↦ Option.map (λ names. name ∷ names) rest
      ]

  -- The loop of addBlock.
  pub block_loop : List Bytes → List Bytes → List ℕ → Option (List Bytes × List ℕ)
  unfolding intern
  block_loop [] roll stack = none
  block_loop ([] ∷ lines) roll stack = some (roll, stack)
  block_loop ((c ∷ line) ∷ lines) roll stack = elim (matched (c ∷ line)) [
    | none ↦ block_loop lines roll stack
    | some name ↦ let (i, after) = intern name roll in block_loop lines after (stack ++ i ∷ [])
  ]

  -- addBlock
  pub add_block : List Bytes → Tracer → Option Tracer
  unfolding block_loop
  add_block lines self = elim (block_loop lines self.roll []) [
    | none ↦ none
    | some (roll, stack) ↦ some (record { roll = roll; chain = self.chain ++ stack ∷ [] })
  ]
