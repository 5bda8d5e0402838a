-- ===== src/Heap/Tests.antt =====
-- Concrete runs of the theorems of the heap.
use drumlin.Prelude.{
  ◌<◌, ◌⊎◌, List, ◌+◌, ◌++◌, ◌-◌, ◌≡◌, refl, sym, ◌≢◌, false, [], ◌∷◌, arith, All, nat_eq, bytes_eq,
}
use mathlib.Core.Bool.{false≢true}
use drumlin.Heap.{word, Block, Heap, alloc, free, free_all, in_use, is_reusable, round_up}
use drumlin.Heap.Layout.{IsLaidOut}
use drumlin.Heap.Counting.{IsCounted, IsCounted-kept, is_target}
use drumlin.Heap.Fresh.{free_lem}
use drumlin.Heap.Reuse.{alloc-free_recycles}

-- A block in use and a free one, in a memory of 1024 bytes.
abbrev in_use_block : Block
in_use_block = record { first = 4096; second = 4096 }

abbrev free_block : Block
free_block = record { first = 0; second = 4160 }

abbrev two_blocks : Heap
two_blocks = record {
  allocated = 1;
  total = 16;
  size = 64;
  memory = 4096;
  free_ptr = 4096;
  align = 16;
  max = 1024;
  blocks = in_use_block ∷ free_block ∷ [];
}

two_blocks-IsLaidOut : IsLaidOut two_blocks
unfolding round_up
two_blocks-IsLaidOut = record {
  spaced = (omega arith, omega arith, refl, (omega arith, omega arith, refl, tt));
  size_pos = omega arith;
  align_pos = omega arith;
  no_wrap = omega arith;
  starts = refl;
  first_fits = omega arith;
}

-- The same memory before the first alloc.
abbrev new_heap : Heap
new_heap = record two_blocks { allocated = 0; blocks = [] }

two_blocks-IsCounted : IsCounted two_blocks
unfolding in_use
two_blocks-IsCounted = omega arith

some_in_use : ¬ All (λ b. is_target 4096 b ≡ false) two_blocks.blocks
some_in_use all = absurd (false≢true (sym all.0))

not_last : 4096 ≢ word - 1
not_last e = absurd (omega (arith, e))

free_lem_example :
    IsLaidOut (free 4096 two_blocks)
    × IsCounted (free 4096 two_blocks)
    × ((All (λ b. is_target 4096 b ≡ false) two_blocks.blocks × (free 4096 two_blocks ≡ two_blocks))
        ⊎ ((xs : List Block) × (b : Block) × (ys : List Block) × (two_blocks.blocks ≡ xs ++ b ∷ ys)
            × (b.second ≡ 4096)
            × (b.first ≢ 0)
            × All (λ x. is_target 4096 x ≡ false) xs
            × (0 < two_blocks.allocated)
            × (free 4096 two_blocks ≡ record two_blocks {
              allocated = two_blocks.allocated - 1;
              blocks = xs ++ record b { first = 0 } ∷ ys;
            })))
free_lem_example = free_lem 4096 two_blocks two_blocks-IsLaidOut two_blocks-IsCounted

IsCounted-kept_example :
    IsCounted (alloc 0 two_blocks).0
    × IsCounted (free 4096 two_blocks)
    × IsCounted (free_all two_blocks).0
IsCounted-kept_example = IsCounted-kept 0 4096 two_blocks two_blocks-IsCounted

alloc-free_recycles_example :
    let f = free 4096 two_blocks in
    (xs : List Block) × (b : Block) × (ys : List Block) × (f.blocks ≡ xs ++ b ∷ ys)
    × (b.first ≡ 0)
    × All (λ x. is_reusable x ≡ false) xs
    × (alloc 0 f ≡ (
      record f { allocated = f.allocated + 1; blocks = xs ++ record b { first = 1 } ∷ ys },
      b.second,
    ))
alloc-free_recycles_example = alloc-free_recycles 0 4096 two_blocks some_in_use not_last
