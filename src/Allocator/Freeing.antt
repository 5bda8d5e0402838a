-- ===== src/Allocator/Freeing.antt =====
-- allocator.cpp, unregisterUse: what is freed, how often, and who still refers to it.
use drumlin.Prelude.{
  ℕ, ◌-◌, ◌*◌, ◌%◌, ◌^◌, ◌≡◌, ◌≢◌, refl, ap, ◌∙◌, ◌⊎◌, inl, inr, Bool, true, false, none, some,
  List, [], ◌∷◌, ◌++◌, append_assoc, arith, ◌==◌, ==_refl, Bool-cases, Option-cases, nat_eq,
  bytes_eq, lookup, erase, lookup-erase,
}
use drumlin.UsesAllocator.{UsesAllocator}
use drumlin.UseIdent.{of_source}
use drumlin.Heap.{Heap}
use drumlin.Heap.Counting.{IsSameMemory}
use drumlin.BufferCache.{BufferCache}
use drumlin.BufferCache.Memory.{clear_allocated-IsSameMemory}
use drumlin.BufferCache.Clearing.{clear_allocated_blind}
use drumlin.Allocator.{
  Allocator, get_heap, clear_user, is_owned, reset_heap, unregister_heap, unregister_use,
  unregister_loop, unregister_all,
}

freed_once : (xs ys : List ℕ) (x y : ℕ) → xs ≡ ys → x ≡ y → xs ++ x ∷ [] ≡ ys ++ y ∷ []
freed_once xs ys x y e f = rw (e, f)

freed_twice :
    (xs ys : List ℕ) (x y : ℕ) → xs ≡ ys → x ≡ y → (xs ++ x ∷ []) ++ x ∷ [] ≡ ys ++ y ∷ y ∷ []
freed_twice xs ys x y e f = rw (e, f) (append_assoc ys (y ∷ []) (y ∷ []))

module _ (sources : ℕ → UsesAllocator) (held : ℕ → Bool) where
  clear_user_kept :
      (first p : ℕ) (h : Heap) (a : Allocator)
      → let r = clear_user sources held first h a in
        IsSameMemory (r.cache.heaps p) (a.cache.heaps p)
        × (r.heap_map ≡ a.heap_map)
        × (r.freed ≡ a.freed)
  unfolding clear_user
  clear_user_kept first p h a = elim (Bool-cases (h.allocated == 0)) [
    | inl e ↦ rw e ((refl, refl, refl), refl, refl)
    | inr e ↦ rw e (
      clear_allocated-IsSameMemory (record { ident = of_source sources first }) a.cache p,
      refl,
      refl,
    )
  ]

  abbrev erased : Allocator → ℕ → ℕ → Allocator
  erased cleared p first = record cleared {
    freed = cleared.freed ++ (cleared.cache.heaps p).free_ptr ∷ [];
    heap_map = erase first cleared.heap_map;
  }

  reset_heap_cases :
      (p block : ℕ) (a : Allocator)
      → let r = reset_heap sources held p block a in
        (r.heap_map ≡ a.heap_map)
        × (r.cache ≡ a.cache)
        × (((is_owned sources held p r ≡ true) × (r.freed ≡ a.freed))
            ⊎ ((is_owned sources held p r ≡ false) × (r.freed ≡ a.freed ++ block ∷ [])))
  unfolding reset_heap is_owned
  reset_heap_cases p block a = elim (Bool-cases (is_owned sources held p a)) [
    | inl e ↦ rw (e, reset_heap) (refl, refl, inl (e, refl))
    | inr e ↦ rw (e, reset_heap) (refl, refl, inr (e, refl))
  ]

  -- unregisterUse, for a known user: the user is forgotten and no other, the value is `total` times
  -- `size` of its heap_t as a word of 32 bits, and the memory of its heap is given to ::free once
  -- where a shared_ptr to the heap_t is left, and twice where none is left. For a user that is not
  -- known the value is -2 and nothing changes.
  pub unregister_use_cases :
      (uses other : ℕ) (a : Allocator)
      → ((get_heap uses a ≡ none) × (unregister_use sources held uses a ≡ (a, 2 ^ 32 - 2)))
        ⊎ ((p : ℕ) × (get_heap uses a ≡ some p)
            × (let r = unregister_use sources held uses a in
                let h = a.cache.heaps p in
                (r.1 ≡ h.total * h.size % 2 ^ 32)
                × (get_heap uses r.0 ≡ none)
                × ((other ≡ uses) ⊎ (get_heap other r.0 ≡ get_heap other a))
                × (((is_owned sources held p r.0 ≡ true) × (r.0.freed ≡ a.freed ++ h.free_ptr ∷ []))
                    ⊎ ((is_owned sources held p r.0 ≡ false)
                        × (r.0.freed ≡ a.freed ++ h.free_ptr ∷ h.free_ptr ∷ [])))))
  unfolding unregister_use unregister_heap get_heap
  unregister_use_cases uses other a = elim (Option-cases (lookup uses a.heap_map)) [
    | inl e ↦ inl (e, rw (e, unregister_use))
    | inr (p, e) ↦
        let ((ptr, total, size), map_kept, freed_kept) =
          clear_user_kept uses p (a.cache.heaps p) a in
        let cleared = clear_user sources held uses (a.cache.heaps p) a in
        let (map_reset, _, cases) =
          reset_heap_cases p (cleared.cache.heaps p).free_ptr (erased cleared p uses) in
        let at = λ (q : ℕ).
          ap (lookup q) (map_reset ∙ ap (erase uses) map_kept) ∙ lookup-erase uses q a.heap_map in
        inr (
          p,
          e,
          rw (e, unregister_use)
              (
                rw (total, size),
                at uses ∙ rw (==_refl uses),
                ground (arith, at other),
                elim cases [
                  | inl (o, f) ↦ inl (o, f ∙ freed_once _ _ _ _ freed_kept ptr)
                  | inr (o, f) ↦ inr (o, f ∙ freed_twice _ _ _ _ freed_kept ptr)
                ],
              ),
        )
  ]

  -- An entry of the map is gone behind the unregistering of its heap.
  lookup-unregister_heap :
      (first second : ℕ) (a : Allocator)
      → lookup first (unregister_heap sources held first second a).0.heap_map ≡ none
  unfolding unregister_heap
  lookup-unregister_heap first second a =
      let (_, map_kept, _) = clear_user_kept first second (a.cache.heaps second) a in
      let cleared = clear_user sources held first (a.cache.heaps second) a in
      let (map_reset, _, _) =
        reset_heap_cases second (cleared.cache.heaps second).free_ptr
          (erased cleared second first) in
      ap (lookup first) (map_reset ∙ ap (erase first) map_kept)
      ∙ lookup-erase first first a.heap_map
      ∙ rw (==_refl first)

  unregister_loop_cases :
      (pairs : List (ℕ × ℕ)) (a : Allocator)
      → ((pairs ≡ []) × (unregister_loop sources held pairs a ≡ some (a, 0)))
        ⊎ ((pairs ≢ []) × (unregister_loop sources held pairs a ≡ none))
  unfolding unregister_loop
  unregister_loop_cases [] a = inl (refl, refl)
  unregister_loop_cases ((first, second) ∷ pairs) a =
      inr ((λ e. cc), rw (lookup-unregister_heap first second a, unregister_loop) refl)

  -- unregisterAll, of any allocator: without a user it changes nothing and its value is 0; with one it is
  -- undefined, since it erases the entry that it stands at.
  pub unregister_all_cases :
      (a : Allocator)
      → ((a.heap_map ≡ []) × (unregister_all sources held a ≡ some (a, 0)))
        ⊎ ((a.heap_map ≢ []) × (unregister_all sources held a ≡ none))
  unfolding unregister_all
  unregister_all_cases a = unregister_loop_cases a.heap_map a

clear_user_blind :
    (sources : ℕ → UsesAllocator) (held : ℕ → Bool) (first : ℕ) (h : Heap) (a : Allocator)
    → clear_user sources held first h a ≡ a
unfolding clear_user
clear_user_blind sources held first h a = elim (Bool-cases (h.allocated == 0)) [
  | inl e ↦ rw e
  | inr e ↦ rw e (
      ap (λ (r : BufferCache × ℕ). record a { cache = r.0 })
        (clear_allocated_blind (record { ident = of_source sources first }) a.cache).0)
]

-- With the filters held by value the cache does not hear of it when a user leaves: every entry of its
-- heap stays, with its blocks as they were, although the memory has been given to ::free.
unregister_use_dangling :
    (sources : ℕ → UsesAllocator) (held : ℕ → Bool) (uses p : ℕ) (a : Allocator)
    → get_heap uses a ≡ some p
    → let r = (unregister_use sources held uses a).0 in
      (r.cache ≡ a.cache)
      × ((twice : List ℕ) × (r.freed ≡ a.freed ++ (a.cache.heaps p).free_ptr ∷ twice))
unfolding unregister_use unregister_heap get_heap
unregister_use_dangling sources held uses p a e =
    let ptr = (a.cache.heaps p).free_ptr in
    let after = erased sources held a p uses in
    let (_, kept, cases) = reset_heap_cases sources held p ptr after in
    rw (e, unregister_use, clear_user_blind sources held uses (a.cache.heaps p) a)
      (
        kept,
        elim cases [
          | inl (_, f) ↦ ([], f)
          | inr (_, f) ↦ (ptr ∷ [], f ∙ append_assoc a.freed (ptr ∷ []) (ptr ∷ []))
        ],
      )
