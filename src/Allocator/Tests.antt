-- ===== src/Allocator/Tests.antt =====
-- Concrete runs of the theorems of the allocator.
use drumlin.Prelude.{
  inl, ℕ, ◌-◌, ◌*◌, ◌%◌, ◌^◌, ◌≡◌, ◌≢◌, refl, ◌⊎◌, Bool, true, false, none, some, List, All, [],
  ◌∷◌, ◌++◌, arith, ltb, nat_eq, bytes_eq, lookup, place, insert,
}
use drumlin.UsesAllocator.{UsesAllocator, queue_size}
use drumlin.Heap.{Heap, make_heap, std_align, round_up}
use drumlin.BufferCache.{BufferCache, update}
use drumlin.Allocator.{
  Allocator, registered, heap_bytes, register_heap, register_use, get_heap, is_owned,
  unregister_use, unregister_all,
}
use drumlin.Allocator.Registering.{get_heap-register_use}
use drumlin.Allocator.Freeing.{unregister_use_cases, unregister_all_cases}
use drumlin.Access.{Call}
use drumlin.Access.Recursive.{
  calling, waiting, System, set_pc, try_lock, go_on, Reach, here, next, at_start,
}
use drumlin.Access.Recursive.Holding.{Excludes}
use drumlin.Allocator.Sharing.{
  Request, registering, unregistering, made, perform, calls_of, LeavesKey, get_heap-Reach,
  register_use-Excludes,
}

abbrev user : UsesAllocator
user = record {
  data_length = 64;
  buffer_size = 4;
  tau = 20;
  process = 10;
  token = b'u' ∷ [];
  memory_allocated = 0;
}

abbrev one_block : Heap
one_block = record {
  allocated = 1;
  total = 4;
  size = 64;
  memory = 4096;
  free_ptr = 4096;
  align = 16;
  max = 1024;
  blocks = record { first = 4096; second = 4096 } ∷ [];
}

abbrev empty_cache : BufferCache
empty_cache = record { buffers = []; subscriptions = []; heaps = λ p. one_block; accepted = [] }

-- The user 1 has a heap at 7.
abbrev one_user : Allocator
one_user = record { heap_map = (1, 7) ∷ []; cache = empty_cache; freed = [] }

abbrev same : ℕ → ℕ
same n = n

abbrev other_user : ℕ
other_user = 2

abbrev sources : ℕ → UsesAllocator
sources p = user

abbrev nobody : ℕ → Bool
nobody p = false

abbrev second_user : ℕ × UsesAllocator
second_user = (2, user)

-- The user 2 gets a heap at 8, in a block from malloc at 65536.
abbrev second_heap : Heap
second_heap = make_heap 7 64 65536 65536 16 4096

abbrev two_users : Allocator
two_users = record one_user {
  heap_map = place ltb 2 8 one_user.heap_map;
  cache = record empty_cache { heaps = update empty_cache.heaps 8 second_heap };
}

second_is_known : queue_size same user ≡ some 8
unfolding queue_size
second_is_known = refl

second_registers :
    register_use ltb same second_user 16 (some 65536) 8 one_user ≡ registered two_users 8
unfolding register_use register_heap heap_bytes insert place lookup update std_align round_up
    make_heap
second_registers = refl

first_is_there : get_heap 1 one_user ≡ some 7
unfolding get_heap lookup
first_is_there = refl

get_heap-register_use_example :
    (((get_heap second_user.0 one_user ≡ none) × (get_heap second_user.0 two_users ≡ some 8))
      ⊎ ((old : ℕ) × (get_heap second_user.0 one_user ≡ some old)
          × (get_heap second_user.0 two_users ≡ some old)))
    × ((1 ≡ second_user.0) ⊎ (get_heap 1 two_users ≡ get_heap 1 one_user))
get_heap-register_use_example =
    get_heap-register_use ltb same second_user 16 8 65536 8 1 one_user two_users second_is_known
      second_registers

unregister_use_cases_example :
    ((get_heap 1 one_user ≡ none)
      × (unregister_use sources nobody 1 one_user ≡ (one_user, 2 ^ 32 - 2)))
    ⊎ ((p : ℕ) × (get_heap 1 one_user ≡ some p)
        × (let r = unregister_use sources nobody 1 one_user in
            let h = one_user.cache.heaps p in
            (r.1 ≡ h.total * h.size % 2 ^ 32)
            × (get_heap 1 r.0 ≡ none)
            × ((other_user ≡ 1) ⊎ (get_heap other_user r.0 ≡ get_heap other_user one_user))
            × (((is_owned sources nobody p r.0 ≡ true)
                  × (r.0.freed ≡ one_user.freed ++ h.free_ptr ∷ []))
                ⊎ ((is_owned sources nobody p r.0 ≡ false)
                    × (r.0.freed ≡ one_user.freed ++ h.free_ptr ∷ h.free_ptr ∷ [])))))
unregister_use_cases_example = unregister_use_cases sources nobody 1 other_user one_user

unregister_all_cases_example :
    ((one_user.heap_map ≡ []) × (unregister_all sources nobody one_user ≡ some (one_user, 0)))
    ⊎ ((one_user.heap_map ≢ []) × (unregister_all sources nobody one_user ≡ none))
unregister_all_cases_example = unregister_all_cases sources nobody one_user

-- Each thread registers the user 2 and then unregisters it; thread 3 is in its first call.
abbrev register_second : Request
register_second = registering second_user 16 (some 65536) 8

abbrev requests : ℕ → List Request
requests p = register_second ∷ unregistering 2 ∷ []

abbrev asked : List Request → List (Call Allocator)
asked rs = calls_of ltb same sources nobody rs

abbrev shared_0 : System Allocator
shared_0 = at_start one_user (λ p. asked (requests p))

abbrev first_call : Call Allocator
first_call = perform ltb same sources nobody register_second ∷ []

abbrev shared_1 : System Allocator
shared_1 = record {
  shared = two_users;
  owner = 3;
  depth = 1;
  pc =
      set_pc 3 (calling [] (asked (unregistering 2 ∷ [])))
        (set_pc 3 (calling first_call (asked (unregistering 2 ∷ []))) shared_0.pc);
}

shared_1_reached : Reach shared_0 shared_1
unfolding at_start calls_of perform made register_use register_heap heap_bytes insert place lookup
    update std_align round_up make_heap queue_size
shared_1_reached =
    next (next here (try_lock 3 first_call (asked (unregistering 2 ∷ [])) refl (inl refl))) (
      go_on 3 (perform ltb same sources nobody register_second) [] (asked (unregistering 2 ∷ []))
        two_users refl refl)

one_is_not_two : ◌≢◌ {A = ℕ} 1 2
one_is_not_two h = omega (arith, h)

requests_leave_one : (p : ℕ) → All (LeavesKey ltb same sources nobody 1) (requests p)
unfolding LeavesKey
requests_leave_one p = ((8, second_is_known), (one_is_not_two, tt))

get_heap-Reach_example : get_heap 1 shared_1.shared ≡ some 7
get_heap-Reach_example =
    get_heap-Reach ltb same sources nobody requests 1 7 one_user shared_1 first_is_there
      requests_leave_one shared_1_reached

-- Each thread registers the user 2, and malloc finds no memory.
abbrev starved : Request
starved = registering second_user 16 none 9

abbrev starved_0 : System Allocator
starved_0 = at_start one_user (λ p. asked (starved ∷ []))

starved_free : (starved_0.depth ≡ 0) ⊎ (starved_0.owner ≡ 3)
unfolding at_start
starved_free = inl refl

starved_waits : starved_0.pc 3 ≡ waiting (asked (starved ∷ []))
unfolding at_start
starved_waits = refl

register_use-Excludes_example :
    (t : System Allocator) × Reach starved_0 t
    × (t.shared ≡ starved_0.shared)
    × (t.pc 3 ≡ waiting (asked []))
    × ((u : System Allocator) → Reach t u → Excludes 3 t u)
register_use-Excludes_example =
    register_use-Excludes ltb same sources nobody (λ p. starved ∷ []) one_user starved_0 3
      second_user 16 8 9 [] here starved_free starved_waits second_is_known
