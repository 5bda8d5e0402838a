-- ===== src/Heap/Counting.antt =====
-- allocator.cpp, heap_t: the counter `allocated` against the blocks that are in use.
use drumlin.Prelude.{
  ℕ, ◌+◌, ◌≤◌, ◌≡◌, refl, ap, subst, ◌⊎◌, inl, inr, Bool, true, false, not, ◌&&◌, Option, none,
  some, List, [], ◌∷◌, ◌++◌, map, arith, ◌==◌, Bool-cases, All, nat_eq, bytes_eq,
}
use drumlin.Heap.{
  Block, Heap, marked, alloc, attempt, reuse, release, free, free_all, in_use, is_reusable,
}

in_use-append : (xs ys : List Block) → in_use (xs ++ ys) ≡ in_use xs + in_use ys
unfolding in_use
in_use-append [] ys = omega arith
in_use-append (b ∷ xs) ys = ground (arith, in_use-append xs ys)

-- reuse marks the first block that is reusable, if there is one.
pub reuse_cases :
    (bs : List Block)
    → ((reuse bs ≡ none) × All (λ b. is_reusable b ≡ false) bs)
      ⊎ ((xs : List Block) × (b : Block) × (ys : List Block) × (bs ≡ xs ++ b ∷ ys)
          × (is_reusable b ≡ true)
          × All (λ x. is_reusable x ≡ false) xs
          × (reuse bs ≡ some (xs ++ marked 1 b ∷ ys, b.second)))
unfolding reuse
reuse_cases [] = inl (refl, tt)
reuse_cases (b ∷ bs) = elim (Bool-cases (is_reusable b)) [
  | inl yes_free ↦ inr ([], b, bs, refl, yes_free, tt, rw yes_free)
  | inr taken ↦ elim (reuse_cases bs) [
    | inl (e, all) ↦ inl (rw (taken, e), (taken, all))
    | inr (xs, c, ys, e, f, all, r) ↦
        inr (b ∷ xs, c, ys, ap (◌∷◌ b) e, f, (taken, all), rw (taken, r))
  ]
]

abbrev pub is_target : ℕ → Block → Bool
is_target p b = b.second == p && not (b.first == 0)

-- release unmarks the first block in use at the address, if there is one.
pub release_cases :
    (p : ℕ) (bs : List Block)
    → ((release p bs ≡ none) × All (λ b. is_target p b ≡ false) bs)
      ⊎ ((xs : List Block) × (b : Block) × (ys : List Block) × (bs ≡ xs ++ b ∷ ys)
          × (is_target p b ≡ true)
          × All (λ x. is_target p x ≡ false) xs
          × (release p bs ≡ some (xs ++ marked 0 b ∷ ys)))
unfolding release
release_cases p [] = inl (refl, tt)
release_cases p (b ∷ bs) = elim (Bool-cases (is_target p b)) [
  | inl hit ↦ inr ([], b, bs, refl, hit, tt, rw hit)
  | inr miss ↦ elim (release_cases p bs) [
    | inl (e, all) ↦ inl (rw (miss, e), (miss, all))
    | inr (xs, c, ys, e, f, all, r) ↦
        inr (b ∷ xs, c, ys, ap (◌∷◌ b) e, f, (miss, all), rw (miss, r))
  ]
]

in_use-marked_one :
    (xs ys : List Block) (b : Block)
    → is_reusable b ≡ true
    → in_use (xs ++ marked 1 b ∷ ys) ≡ in_use (xs ++ b ∷ ys) + 1
unfolding in_use is_reusable
in_use-marked_one xs ys b h =
    ground (arith, in_use-append xs (marked 1 b ∷ ys), in_use-append xs (b ∷ ys))

pub in_use-marked_zero :
    (p : ℕ) (xs ys : List Block) (b : Block)
    → is_target p b ≡ true
    → in_use (xs ++ b ∷ ys) ≡ in_use (xs ++ marked 0 b ∷ ys) + 1
unfolding in_use
in_use-marked_zero p xs ys b h =
    ground (arith, in_use-append xs (marked 0 b ∷ ys), in_use-append xs (b ∷ ys))

in_use-cleared : (bs : List Block) → in_use (map (marked 0) bs) ≡ 0
unfolding in_use
in_use-cleared [] = refl
in_use-cleared (b ∷ bs) = in_use-cleared bs

-- The counter of a heap is never below the number of its blocks in use.
abbrev pub IsCounted : Heap → Type 0
IsCounted h = in_use h.blocks ≤ h.allocated

attempt-IsCounted :
    (h : Heap) (ptr : ℕ) (o : Option (ℕ × ℕ)) → IsCounted h → IsCounted (attempt h ptr o).0
unfolding attempt in_use
attempt-IsCounted h ptr none c = omega arith
attempt-IsCounted h ptr (some (p, space)) c =
    ground (arith, in_use-append h.blocks (record { first = ptr; second = p } ∷ []))

alloc-IsCounted : (stale : ℕ) (h : Heap) → IsCounted h → IsCounted (alloc stale h).0
unfolding alloc
alloc-IsCounted stale h c = elim (reuse_cases h.blocks) [
  | inl (e, _) ↦ rw (e, alloc) (attempt-IsCounted h _ _ c)
  | inr (xs, b, ys, e, f, _, r) ↦
      rw (r, alloc)
        (omega (arith, in_use-marked_one xs ys b f, subst (λ bs. in_use bs ≤ h.allocated) e c))
]

free-IsCounted : (p : ℕ) (h : Heap) → IsCounted h → IsCounted (free p h)
unfolding free
free-IsCounted p h c = elim (release_cases p h.blocks) [
  | inl (e, _) ↦ rw (e, free) c
  | inr (xs, b, ys, e, f, _, r) ↦
      rw (r, free)
        (omega (arith, in_use-marked_zero p xs ys b f, subst (λ bs. in_use bs ≤ h.allocated) e c))
]

free_all-IsCounted : (h : Heap) → IsCounted (free_all h).0
unfolding free_all
free_all-IsCounted h = omega (arith, in_use-cleared h.blocks)

pub free_all-in_use : (h : Heap) → in_use (free_all h).0.blocks ≡ 0
unfolding free_all
free_all-in_use h = in_use-cleared h.blocks

-- Whatever alloc reads and returns, and whatever free is given, the counter of a heap stays at or
-- above the number of its blocks in use; so the decrement of free never passes below 0.
pub IsCounted-kept :
    (stale p : ℕ) (h : Heap)
    → IsCounted h
    → IsCounted (alloc stale h).0 × IsCounted (free p h) × IsCounted (free_all h).0
IsCounted-kept stale p h c = (alloc-IsCounted stale h c, free-IsCounted p h c, free_all-IsCounted h)

-- A free that finds its block lowers both the counter and the number of blocks in use by one; one
-- that does not find it changes nothing.
free_cases :
    (p : ℕ) (h : Heap)
    → IsCounted h
    → ((All (λ b. is_target p b ≡ false) h.blocks) × (free p h ≡ h))
      ⊎ (((free p h).allocated + 1 ≡ h.allocated)
          × (in_use (free p h).blocks + 1 ≡ in_use h.blocks))
unfolding free
free_cases p h c = elim (release_cases p h.blocks) [
  | inl (e, all) ↦ inl (all, rw (e, free))
  | inr (xs, b, ys, e, f, _, r) ↦
      let counted = subst (λ bs. in_use bs ≤ h.allocated) e c in
      let one = in_use-marked_zero p xs ys b f in
      inr (rw (r, free) (omega (arith, counted, one)), rw (r, e, free) (omega (arith, one)))
]

-- The parts of a heap that no operation on its blocks changes.
abbrev pub IsSameMemory : Heap → Heap → Type 0
IsSameMemory h k = (h.free_ptr ≡ k.free_ptr) × (h.total ≡ k.total) × (h.size ≡ k.size)

pub free_all-IsSameMemory : (h : Heap) → IsSameMemory (free_all h).0 h
unfolding free_all
free_all-IsSameMemory h = (refl, refl, refl)
