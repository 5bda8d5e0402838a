-- ===== src/Allocator.antt =====
-- allocator.h and allocator.cpp, Allocator: the heaps of the UsesAllocators, by their addresses.
-- The heap_t objects stand in the cache's memory `heaps`, where both parts see them. malloc's result
-- and the address of a new heap_t are arguments, and `freed` records the calls of ::free. `before` is
-- the order of the unordered map, and `held` says which heap_t a shared_ptr outside the two containers
-- still owns.
pub mod Registering
pub mod Freeing
pub mod Sharing
mod Tests
use mathlib.Core.Option
use drumlin.Prelude.{
  ℕ, ◌+◌, ◌-◌, ◌*◌, ◌/◌, ◌%◌, ◌^◌, Bool, ◌||◌, Option, none, some, List, [], ◌∷◌, ◌++◌, ◌==◌,
  if◌then◌else◌, some_of, before, nat_eq, bytes_eq, lookup, insert, erase,
}
use drumlin.UsesAllocator.{UsesAllocator, queue_size}
use drumlin.UseIdent.{UseIdent, of_source}
use drumlin.Heap.{word, Heap, make_heap, std_align, to_int}
use drumlin.BufferCache.{BufferCache, update, clear_allocated}

pub record Allocator : Type 0 where
  pub heap_map : List (ℕ × ℕ)
  pub cache : BufferCache
  pub freed : List ℕ

-- What registerUse returns or throws; a queue size that has no value is undefined.
pub data Registered : Type 0 where
  registered : Allocator → ℕ → Registered
  enomem enoalign undefined : Registered

-- The number of bytes that registerUse asks malloc for, in size_t.
pub heap_bytes : ℕ → ℕ → ℕ
heap_bytes sz n =
    let m = (sz + 8) * n % word in let pages = m / 2 ^ 12 in (1 + pages) * 2 ^ 12 % word

module _ (before : ℕ → ℕ → Bool) where
  -- The rest of registerUse, once the queue size is known; std::align moves both pointers.
  pub register_heap : ℕ × UsesAllocator → ℕ → ℕ → Option ℕ → ℕ → Allocator → Registered
  unfolding heap_bytes make_heap insert update std_align to_int
  register_heap (key, uses) alignment n none pointer a = enomem
  register_heap (key, uses) alignment n (some block) pointer a =
      let sz = uses.data_length in
      elim (std_align alignment sz block (heap_bytes sz n)) [
        | none ↦ enoalign
        | some (mem, m) ↦
            let total = (n + word - 1) % 2 ^ 32 in
            let heap = make_heap total sz mem mem alignment (to_int m) in
            registered
              (record a {
                heap_map = insert before key pointer a.heap_map;
                cache = record a.cache { heaps = update a.cache.heaps pointer heap };
              })
              pointer
      ]

  -- registerUse
  pub register_use : (ℕ → ℕ) → ℕ × UsesAllocator → ℕ → Option ℕ → ℕ → Allocator → Registered
  unfolding register_heap queue_size
  register_use via_double user alignment malloced pointer a = elim (queue_size via_double user.1) [
    | none ↦ undefined
    | some n ↦ register_heap user alignment n malloced pointer a
  ]

-- getHeap
pub get_heap : ℕ → Allocator → Option ℕ
unfolding lookup
get_heap uses a = lookup uses a.heap_map

module _ (sources : ℕ → UsesAllocator) (held : ℕ → Bool) where
  -- The clearing of the cache for a heap with allocations, by a SourcesOnly filter of its user.
  pub clear_user : ℕ → Heap → Allocator → Allocator
  unfolding clear_allocated of_source
  clear_user first heap a = if heap.allocated == 0 then a else record a {
    cache = (clear_allocated (record { ident = of_source sources first }) a.cache).0;
  }

  -- Whether a shared_ptr to the heap_t is left.
  pub is_owned : ℕ → Allocator → Bool
  is_owned pointer a =
      some_of (λ e. e.1 == pointer) a.heap_map
      || (some_of (λ b. b.1 == pointer) a.cache.buffers || held pointer)

  -- `second.reset()` and the destructor of a heap_t that nobody owns any more.
  pub reset_heap : ℕ → ℕ → Allocator → Allocator
  unfolding is_owned
  reset_heap pointer block a =
      if is_owned pointer a then a else record a { freed = a.freed ++ block ∷ [] }

  -- do_unregisterHeap, with its value as an unsigned number of 32 bits.
  pub unregister_heap : ℕ → ℕ → Allocator → Allocator × ℕ
  unfolding clear_user reset_heap erase
  unregister_heap first pointer a =
      let cleared = clear_user first (a.cache.heaps pointer) a in
      let heap = cleared.cache.heaps pointer in
      let erased = record cleared {
        freed = cleared.freed ++ heap.free_ptr ∷ [];
        heap_map = erase first cleared.heap_map;
      } in
      (reset_heap pointer heap.free_ptr erased, heap.total * heap.size % 2 ^ 32)

  -- unregisterUse; -2 is an unknown user.
  pub unregister_use : ℕ → Allocator → Allocator × ℕ
  unfolding unregister_heap get_heap
  unregister_use uses a = elim (get_heap uses a) [
    | some pointer ↦ unregister_heap uses pointer a
    | none ↦ (a, 2 ^ 32 - 2)
  ]

  -- The walk of unregisterAll. `for_each` goes on from the entry that it stands at: once that is erased,
  -- the step is undefined.
  pub unregister_loop : List (ℕ × ℕ) → Allocator → Option (Allocator × ℕ)
  unfolding unregister_heap
  unregister_loop [] a = some (a, 0)
  unregister_loop ((first, second) ∷ pairs) a =
      let (after, freud) = unregister_heap first second a in
      let rest = unregister_loop pairs after in
      elim (lookup first after.heap_map) [
        | none ↦ none
        | some p ↦ Option.map (λ r. (r.0, (freud + r.1) % 2 ^ 32)) rest
      ]

  -- unregisterAll
  pub unregister_all : Allocator → Option (Allocator × ℕ)
  unfolding unregister_loop
  unregister_all a = unregister_loop a.heap_map a
