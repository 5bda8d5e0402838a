-- ===== src/Heap.antt =====
-- allocator.h and allocator.cpp, heap_t: a heap of equal blocks with a list of marked pointers.
-- Pointers are addresses below 2 ^ 64 and 0 is the null pointer. `stale` is what `blocks.back()`
-- reads from an empty list, which alloc does before the first block. The counter is not bounded as
-- an int is, and std::align is written out.
pub mod Counting
pub mod Layout
pub mod Fresh
pub mod Reuse
mod Tests
use mathlib.Core.Option
use drumlin.Prelude.{
  ℕ, ◌+◌, ◌-◌, ◌*◌, ◌/◌, ◌%◌, ◌^◌, Bool, not, ◌&&◌, Option, none, some, List, [], ◌∷◌, ◌++◌, map,
  ltb, ◌==◌, if◌then◌else◌, nat_eq, bytes_eq,
}

abbrev pub word : ℕ
word = 2 ^ 64

-- pairBytes: `first` is 0 for a free block, 1 for one in use again, and the unaligned address else.
pub record Block : Type 0 where
  pub first : ℕ
  pub second : ℕ

pub record Heap : Type 0 where
  pub allocated : ℕ
  pub total : ℕ
  pub size : ℕ
  pub memory : ℕ
  pub free_ptr : ℕ
  pub align : ℕ
  pub max : ℕ
  pub blocks : List Block

-- A size_t that is kept in an int, as the word of 64 bits that the int is in a sum with addresses.
unfoldable pub to_int : ℕ → ℕ
to_int m = let low = m % 2 ^ 32 in if ltb low (2 ^ 31) then low else low + (word - 2 ^ 32)

-- heap_t::heap_t
unfoldable pub make_heap : ℕ → ℕ → ℕ → ℕ → ℕ → ℕ → Heap
make_heap total size memory free_ptr align max = record {
  allocated = 0;
  total = total;
  size = size;
  memory = memory;
  free_ptr = free_ptr;
  align = align;
  max = max;
  blocks = [];
}

-- A block with its mark set.
abbrev pub marked : ℕ → Block → Block
marked first b = record b { first = first }

unfoldable pub round_up : ℕ → ℕ → ℕ
round_up align ptr = (ptr + align - 1) / align * align

-- std::align: the first aligned address at or after `ptr`, if the size fits in the space behind it,
-- with the space that is left.
unfoldable pub std_align : ℕ → ℕ → ℕ → ℕ → Option (ℕ × ℕ)
unfolding round_up
std_align align size ptr space =
    let aligned = round_up align ptr in
    let skipped = aligned - ptr in
    if ltb space (size + skipped) then none else some (aligned, space - skipped)

-- The test of alloc's find_if.
pub is_reusable : Block → Bool
is_reusable pair = not (pair.second == word - 1) && pair.first == 0

-- The branch of alloc for a block that was freed: it is marked, and its address is the result.
pub reuse : List Block → Option (List Block × ℕ)
unfolding is_reusable
reuse [] = none
reuse (b ∷ bs) =
    if is_reusable b
    then some (marked 1 b ∷ bs, b.second)
    else Option.map (λ r. (b ∷ r.0, r.1)) (reuse bs)

-- `blocks.back().second`
pub back_second : ℕ → List Block → ℕ
back_second stale [] = stale
back_second stale (b ∷ bs) = back_second b.second bs

-- What alloc does with the result of std::align: the counter has grown in either case.
pub attempt : Heap → ℕ → Option (ℕ × ℕ) → Heap × ℕ
attempt h ptr none = (record h { allocated = h.allocated + 1 }, 0)
attempt h ptr (some (alptr, space)) = (
  record h {
    allocated = h.allocated + 1;
    blocks = h.blocks ++ record { first = ptr; second = alptr } ∷ [];
  },
  alptr,
)

pub block_end : ℕ → Heap → ℕ
unfolding back_second
block_end stale h = (back_second stale h.blocks + h.size) % word

-- The rest of alloc: a new block behind the last one. The loop `do … while` returns in its first
-- round, so that its condition is never tested.
pub extend : ℕ → Heap → Heap × ℕ
unfolding block_end attempt
extend stale h =
    let end = block_end stale h in
    let ptr = if h.allocated == 0 then h.memory else end in
    let remaining = (h.max + h.memory + word - end) % word in
    attempt h ptr (std_align h.align h.size ptr remaining)

-- heap_t::alloc
pub alloc : ℕ → Heap → Heap × ℕ
unfolding reuse extend
alloc stale h = elim (reuse h.blocks) [
  | some (blocks, second) ↦ (record h { allocated = h.allocated + 1; blocks = blocks }, second)
  | none ↦ extend stale h
]

-- The search of free, and its mark.
pub release : ℕ → List Block → Option (List Block)
release block [] = none
release block (b ∷ bs) =
    if b.second == block && not (b.first == 0)
    then some (marked 0 b ∷ bs)
    else Option.map (λ r. b ∷ r) (release block bs)

-- heap_t::free; a block that is not in use is reported and nothing changes.
pub free : ℕ → Heap → Heap
unfolding release
free block h = elim (release block h.blocks) [
  | none ↦ h
  | some blocks ↦ record h { allocated = h.allocated - 1; blocks = blocks }
]

pub in_use : List Block → ℕ
in_use [] = 0
in_use (b ∷ bs) = if b.first == 0 then in_use bs else in_use bs + 1

-- heap_t::freeAll, with the number of blocks that it freed; the counter is not touched.
pub free_all : Heap → Heap × ℕ
unfolding in_use
free_all h = (record h { blocks = map (marked 0) h.blocks }, in_use h.blocks)
