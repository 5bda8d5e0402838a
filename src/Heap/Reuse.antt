-- ===== src/Heap/Reuse.antt =====
-- allocator.cpp, heap_t: alloc after free, free after alloc, and the limit `total`.
use drumlin.Prelude.{
  ℕ, ◌-◌, ◌≡◌, refl, sym, ◌∙◌, subst, ◌+◌, ◌≢◌, inl, inr, true, false, Option, none, some, List,
  ◌∷◌, ◌++◌, arith, All, All-middle, nat_eq, bytes_eq,
}
use mathlib.Core.Bool.{false≢true}
use drumlin.Heap.{word, Block, Heap, marked, alloc, extend, attempt, free, is_reusable}
use drumlin.Heap.Counting.{is_target, reuse_cases, release_cases}

set_total : ℕ → Heap → Heap
set_total total h = record h { total = total }

attempt-set_total :
    (total : ℕ) (h : Heap) (ptr : ℕ) (o : Option (ℕ × ℕ))
    → attempt (record h { total = total }) ptr o
      ≡ (record (attempt h ptr o).0 { total = total }, (attempt h ptr o).1)
unfolding attempt
attempt-set_total total h ptr none = refl
attempt-set_total total h ptr (some (p, left)) = refl

-- alloc pays no attention to the limit `total` of a heap: two heaps that differ in it alone get the
-- same address, and go on to differ in it alone, however many blocks are in use.
alloc_total :
    (stale total : ℕ) (h : Heap)
    → alloc stale (record h { total = total })
      ≡ (record (alloc stale h).0 { total = total }, (alloc stale h).1)
unfolding alloc extend
alloc_total stale total h = elim (reuse_cases h.blocks) [
  | inl (e, _) ↦ rw (e, alloc) (attempt-set_total total h _ _)
  | inr (xs, b, ys, e, f, _, r) ↦ rw (r, alloc)
]

target_reusable :
    (p : ℕ) (b : Block) → is_target p b ≡ true → p ≢ word - 1 → is_reusable (marked 0 b) ≡ true
unfolding is_reusable
target_reusable p b h ne = ground arith

reusable_free : (b : Block) → is_reusable b ≡ true → b.first ≡ 0
unfolding is_reusable
reusable_free b h = ground arith

-- alloc behind a free whose blocks are known.
recycles :
    (stale p : ℕ) (h : Heap) (xs ys : List Block) (b : Block)
    → is_target p b ≡ true
    → p ≢ word - 1
    → (free p h).blocks ≡ xs ++ marked 0 b ∷ ys
    → let f = free p h in
      (us : List Block) × (c : Block) × (vs : List Block) × (f.blocks ≡ us ++ c ∷ vs)
      × (c.first ≡ 0)
      × All (λ x. is_reusable x ≡ false) us
      × (alloc stale f
          ≡ (record f { allocated = f.allocated + 1; blocks = us ++ marked 1 c ∷ vs }, c.second))
unfolding alloc
recycles stale p h xs ys b f ne freed = elim (reuse_cases (free p h).blocks) [
  | inl (_, none_free) ↦
      let contra =
        All-middle _ xs (marked 0 b) ys
          (subst (All (λ x. is_reusable x ≡ false)) freed none_free) in
      absurd (false≢true (sym contra ∙ target_reusable p b f ne))
  | inr (us, c, vs, e, g, all, r) ↦ (us, c, vs, e, reusable_free c g, all, rw (r, alloc) refl)
]

-- After a block in use was freed, the next alloc takes no new memory: it finds the first block that is free,
-- behind blocks none of which it can use, hands out the address of that block, marks it as in use and
-- counts it, and changes nothing else. The address 2 ^ 64 - 1 is excluded, which the search for a free
-- block passes over.
pub alloc-free_recycles :
    (stale p : ℕ) (h : Heap)
    → ¬ All (λ b. is_target p b ≡ false) h.blocks
    → p ≢ word - 1
    → let f = free p h in
      (xs : List Block) × (b : Block) × (ys : List Block) × (f.blocks ≡ xs ++ b ∷ ys)
      × (b.first ≡ 0)
      × All (λ x. is_reusable x ≡ false) xs
      × (alloc stale f ≡ (
        record f { allocated = f.allocated + 1; blocks = xs ++ record b { first = 1 } ∷ ys },
        b.second,
      ))
unfolding alloc free
alloc-free_recycles stale p h used ne = elim (release_cases p h.blocks) [
  | inl (e, none_there) ↦ absurd (used none_there)
  | inr (xs, b, ys, e, f, _, r) ↦ recycles stale p h xs ys b f ne (rw (r, free) refl)
]
