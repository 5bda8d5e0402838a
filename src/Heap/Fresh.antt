-- ===== src/Heap/Fresh.antt =====
-- allocator.cpp, heap_t::alloc: the blocks that it hands out share no byte with one in use.
use drumlin.Prelude.{
  ◌++◌, ◌≢◌, ==_iff, ℕ, ◌+◌, ◌-◌, ◌%◌, ◌≤◌, ◌<◌, ◌≡◌, refl, subst, ◌⊎◌, inl, inr, false, some, List,
  [], ◌∷◌, arith, All, nat_eq, bytes_eq,
}
use drumlin.Heap.{Block, Heap, free, free_all, in_use, std_align, round_up}
use drumlin.Heap.Counting.{IsCounted, IsCounted-kept, is_target, in_use-marked_zero, release_cases}
use drumlin.Heap.Layout.{Spaced, IsLaidOut, Spaced-marked, Spaced-map, end_of, IsApart}

-- No alloc has failed on a heap that has no block yet.
abbrev pub HasStarted : Heap → Type 0
HasStarted h = h.blocks ≡ [] → h.allocated ≡ 0

-- A block that std::align places at the end of the heap.
abbrev IsPlaced : Heap → ℕ → Type 0
IsPlaced h p =
    let hi = h.memory + h.max in
    (end_of h.size h.align hi h.memory h.blocks ≤ p) × (p + h.size ≤ hi) × (p % h.align ≡ 0)

-- What alloc promises of an address: it is a multiple of the alignment, the block lies in the heap's
-- memory, and it shares no byte with a block in use.
pub record IsFresh (h : Heap) (p : ℕ) : Type 0 where
  pub aligned : p % h.align ≡ 0
  pub above : h.memory ≤ p
  pub below : p + h.size ≤ h.memory + h.max
  pub apart : All (IsApart h.size h.align (h.memory + h.max) p) h.blocks

abbrev pub AllocPromise : Heap → Heap × ℕ → Type 0
AllocPromise h r = IsLaidOut r.0 × ((r.1 ≡ 0) ⊎ IsFresh h r.1)

pub std_align-at :
    (align size ptr space p left : ℕ)
    → std_align align size ptr space ≡ some (p, left)
    → p ≡ round_up align ptr
unfolding std_align
std_align-at align size ptr space p left e = ground (arith, e)

free-IsLaidOut : (p : ℕ) (h : Heap) → IsLaidOut h → IsLaidOut (free p h)
unfolding free
free-IsLaidOut p h l = elim (release_cases p h.blocks) [
  | inl (e, _) ↦ rw (e, free) l
  | inr (xs, b, ys, e, f, _, r) ↦
      let hi = h.memory + h.max in
      rw (r, free)
        (record {
          spaced =
              Spaced-marked h.size h.align hi 0 h.memory xs ys b
                (subst (Spaced h.size h.align hi h.memory) e l.spaced);
          size_pos = l.size_pos;
          align_pos = l.align_pos;
          no_wrap = l.no_wrap;
          starts = l.starts;
          first_fits = l.first_fits;
        })
]

-- free and freeAll keep the layout of a heap.
pub IsLaidOut-kept :
    (p : ℕ) (h : Heap) → IsLaidOut h → IsLaidOut (free p h) × IsLaidOut (free_all h).0
unfolding free_all
IsLaidOut-kept p h l = (
  free-IsLaidOut p h l,
  record {
    spaced = Spaced-map h.size h.align (h.memory + h.max) 0 h.memory h.blocks l.spaced;
    size_pos = l.size_pos;
    align_pos = l.align_pos;
    no_wrap = l.no_wrap;
    starts = l.starts;
    first_fits = l.first_fits;
  },
)

-- On a heap that is laid out and counts its blocks in use, free keeps it so. If no block in use stands at the
-- address, it changes nothing; otherwise it marks the first one there as free and lowers the counter, which
-- is not 0, by one, and changes nothing else.
pub free_lem :
    (p : ℕ) (h : Heap)
    → IsLaidOut h
    → IsCounted h
    → IsLaidOut (free p h)
      × IsCounted (free p h)
      × ((All (λ b. is_target p b ≡ false) h.blocks × (free p h ≡ h))
          ⊎ ((xs : List Block) × (b : Block) × (ys : List Block) × (h.blocks ≡ xs ++ b ∷ ys)
              × (b.second ≡ p)
              × (b.first ≢ 0)
              × All (λ x. is_target p x ≡ false) xs
              × (0 < h.allocated)
              × (free p h ≡ record h {
                allocated = h.allocated - 1;
                blocks = xs ++ record b { first = 0 } ∷ ys;
              })))
unfolding free
free_lem p h l c = (
  free-IsLaidOut p h l,
  (IsCounted-kept 0 p h c).1,
  elim (release_cases p h.blocks) [
    | inl (e, all) ↦ inl (all, rw (e, free) refl)
    | inr (xs, b, ys, e, f, miss, r) ↦
        let one = in_use-marked_zero p xs ys b f in
        let counted = subst (λ bs. in_use bs ≤ h.allocated) e c in
        inr (
          xs,
          b,
          ys,
          e,
          ground (arith, f, ==_iff b.second p),
          (λ z. absurd (ground (arith, f, z))),
          miss,
          omega (arith, one, counted),
          rw (r, free) refl,
        )
  ],
)
