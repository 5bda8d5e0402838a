-- ===== src/Allocator/Registering.antt =====
-- allocator.cpp, registerUse and getHeap: the memory of a new heap, and what its key leads to.
use drumlin.Prelude.{
  ℕ, ◌+◌, ◌-◌, ◌*◌, ◌/◌, ◌%◌, ◌^◌, ◌≤◌, ◌<◌, ◌≡◌, refl, sym, ap, ◌∙◌, ◌⊎◌, inl, inr, Bool, Option,
  none, some, List, [], arith, ==_refl, Option-cases, nat_eq, bytes_eq, lookup, insert,
  lookup-insert, insert_present,
}
use native.Mathlib.Nat.{mul-mod_left}
use mathlib.Core.Option.{some_inj, none-ne-some}
use drumlin.UsesAllocator.{UsesAllocator, queue_size}
use drumlin.Heap.{word, Heap, make_heap, std_align, to_int}
use drumlin.Heap.Layout.{IsLaidOut}
use drumlin.BufferCache.{update}
use drumlin.Allocator.{
  Allocator, Registered, registered, enomem, enoalign, undefined, heap_bytes, register_heap,
  register_use, get_heap,
}

pages_bounds :
    (p : ℕ)
    → p + 4096 < word
    → let m = (1 + p % word / 2 ^ 12) * 2 ^ 12 % word in (p < m) × (m ≤ p + 4096) × (m % 4096 ≡ 0)
pages_bounds p h =
    let e : (1 + p % word / 2 ^ 12) * 2 ^ 12 % word ≡ (1 + p / 2 ^ 12) * 4096 = omega arith in
    (omega arith, omega arith, ap (λ m. m % 4096) e ∙ mul-mod_left (1 + p / 2 ^ 12) 4096)

-- The number of bytes that registerUse asks malloc for is a multiple of 4096, above what the
-- blocks need with eight bytes more for each, by 4096 at most, as long as no product wraps around.
pub heap_bytes_bounds :
    (sz n : ℕ)
    → (sz + 8) * n + 4096 < word
    → ((sz + 8) * n < heap_bytes sz n)
      × (heap_bytes sz n ≤ (sz + 8) * n + 4096)
      × (heap_bytes sz n % 4096 ≡ 0)
unfolding heap_bytes
heap_bytes_bounds sz n h = pages_bounds ((sz + 8) * n) h

module _ (before : ℕ → ℕ → Bool) (via_double : ℕ → ℕ) where
  -- What a registration leaves: the heap at its address has no block and is laid out in the
  -- memory from malloc, in all of it that starts at the first aligned address.
  abbrev pub IsFit : ℕ → ℕ → ℕ → Heap → Type 0
  IsFit alignment block bytes h =
      IsLaidOut h
      × (h.blocks ≡ [])
      × (block ≤ h.memory)
      × (h.memory + h.max ≡ block + bytes)
      × (h.memory % alignment ≡ 0)

  abbrev pub with_heap : ℕ × UsesAllocator → ℕ → ℕ → ℕ → ℕ × ℕ → Allocator → Allocator
  with_heap user alignment n pointer (mem, left) a =
      let heap =
        make_heap ((n + word - 1) % 2 ^ 32) user.1.data_length mem mem alignment (to_int left) in
      record a {
        heap_map = insert before user.0 pointer a.heap_map;
        cache = record a.cache { heaps = update a.cache.heaps pointer heap };
      }

  pub register_heap-placed :
      (user : ℕ × UsesAllocator) (alignment n block pointer : ℕ) (placed : ℕ × ℕ) (a : Allocator)
      → std_align alignment user.1.data_length block (heap_bytes user.1.data_length n) ≡ some placed
      → register_heap before user alignment n (some block) pointer a
        ≡ registered (with_heap user alignment n pointer placed a) pointer
  unfolding register_heap
  register_heap-placed user alignment n block pointer placed a e = rw (e, register_heap)

  pub register_use-known :
      (user : ℕ × UsesAllocator) (alignment n pointer : ℕ) (malloced : Option ℕ) (a : Allocator)
      → queue_size via_double user.1 ≡ some n
      → register_use before via_double user alignment malloced pointer a
        ≡ register_heap before user alignment n malloced pointer a
  unfolding register_use
  register_use-known user alignment n pointer malloced a q = rw (q, register_use)

  map_of : Registered → Option (List (ℕ × ℕ))
  map_of (registered r p) = some r.heap_map
  map_of enomem = none
  map_of enoalign = none
  map_of undefined = none

  registered_map :
      (user : ℕ × UsesAllocator) (alignment n block pointer : ℕ) (a r : Allocator)
      → register_heap before user alignment n (some block) pointer a ≡ registered r pointer
      → r.heap_map ≡ insert before user.0 pointer a.heap_map
  unfolding map_of register_heap
  registered_map user alignment n block pointer a r e =
      elim (Option-cases
        (std_align alignment user.1.data_length block (heap_bytes user.1.data_length n))) [
          | inl f ↦
              let g : register_heap before user alignment n (some block) pointer a ≡ enoalign =
                rw (f, register_heap) in
              absurd (none-ne-some r.heap_map (ap map_of (sym g ∙ e)))
          | inr (placed, f) ↦
              some_inj.0
                (ap map_of (sym e ∙ register_heap-placed user alignment n block pointer placed a f))
        ]

  -- A registration that gives a heap makes its key lead to the new heap_t if the key led nowhere
  -- before; a key that led to a heap_t leads to that one still, though the address that is returned
  -- is the new one. Every other key leads where it led.
  pub get_heap-register_use :
      (user : ℕ × UsesAllocator) (alignment n block pointer other : ℕ) (a r : Allocator)
      → queue_size via_double user.1 ≡ some n
      → register_use before via_double user alignment (some block) pointer a ≡ registered r pointer
      → (((get_heap user.0 a ≡ none) × (get_heap user.0 r ≡ some pointer))
          ⊎ ((old : ℕ) × (get_heap user.0 a ≡ some old) × (get_heap user.0 r ≡ some old)))
        × ((other ≡ user.0) ⊎ (get_heap other r ≡ get_heap other a))
  unfolding get_heap register_heap
  get_heap-register_use user alignment n block pointer other a r q e =
      let m =
        registered_map user alignment n block pointer a r
          (sym (register_use-known user alignment n pointer (some block) a q) ∙ e) in
      elim (Option-cases (lookup user.0 a.heap_map)) [
        | inl f ↦
            let at = lookup-insert before user.0 user.0 pointer a.heap_map f in
            let elsewhere = lookup-insert before user.0 other pointer a.heap_map f in
            rw m (inl (f, at ∙ rw (==_refl user.0)), ground (arith, elsewhere))
        | inr (old, f) ↦
            rw (m, insert_present before user.0 pointer old a.heap_map f)
              (inr (old, f, f), inr refl)
      ]
