-- ===== src/Mutexcall.antt =====
-- mutexcall.h, and what uses_allocator.h and usable.h do with it: a call of a member function that is kept, with its
-- argument and what follows it, until it is applied to an object. An object of type `K` changes with a
-- call, and what the continuation captures, of type `S`, with the continuation. The locks are left out.
pub mod Applying
use drumlin.Prelude.{ℕ, Option, none, some, ◌==◌, if◌then◌else◌, nat_eq, bytes_eq}
use drumlin.Heap.{Heap, alloc}

-- mutex_call_1
pub record MutexCall (K : Type 0) (R : Type 0) (P : Type 0) : Type 0 where
  pub func : K → P → K × R

-- CPS, with a continuation that may be empty, and the value that is kept.
pub record Cps (K : Type 0) (R : Type 0) (P : Type 0) (S : Type 0) : Type 0 where
  pub continuer : Option (R → S → S)
  pub func : MutexCall K R P
  pub param : P

-- CPS_void
pub record CpsVoid (K : Type 0) (R : Type 0) (P : Type 0) : Type 0 where
  pub func : MutexCall K R P
  pub param : P

module _ {K : Type 0} {R : Type 0} {P : Type 0} where
  -- mutex_call_1::operator()
  pub mutex_call : MutexCall K R P → K → P → K × R
  mutex_call call klass param = call.func klass param

  -- CPS_call_void
  pub cps_call_void : MutexCall K R P → P → CpsVoid K R P
  cps_call_void func param = record { func = func; param = param }

  -- CPS_void::operator()
  pub apply_void : CpsVoid K R P → K → K × R
  unfolding mutex_call
  apply_void call klass = mutex_call call.func klass call.param

module _ {K : Type 0} {R : Type 0} {P : Type 0} {S : Type 0} where
  -- CPS_call
  pub cps_call : Option (R → S → S) → MutexCall K R P → P → Cps K R P S
  cps_call func call param = record { continuer = func; func = call; param = param }

  -- CPS::operator()
  pub apply : Cps K R P S → K → S → (K × R) × S
  unfolding mutex_call
  apply call klass captured =
      let (after, ret) = mutex_call call.func klass call.param in
      elim call.continuer [
        | none ↦ ((after, ret), captured)
        | some continuer ↦ ((after, ret), continuer ret captured)
      ]

-- A memory of heaps at addresses, 0 for none.
abbrev pub Heaps : Type 0
Heaps = ℕ → Heap

-- What alloc of UsesAllocator captures: `if(!heap)return; ptr = heap;`
pub keep_heap : ℕ → ℕ → ℕ
keep_heap heap ptr = if heap == 0 then ptr else heap

-- The call that alloc makes, of Buffers::getHeap.
pub heap_call : {K : Type 0} → MutexCall K ℕ ℕ → ℕ → Cps K ℕ ℕ ℕ
unfolding cps_call keep_heap
heap_call get_heap uses = cps_call (some keep_heap) get_heap uses

-- `new(ptr) UsableBuffer<T>`, which allocates through the pointer; the null pointer is undefined.
pub placement_new : ℕ → ℕ → Heaps → Option (Heaps × ℕ)
placement_new stale ptr heaps =
    let (after, address) = alloc stale (heaps ptr) in
    if ptr == 0 then none else some (λ q. if q == ptr then after else heaps q, address)

-- UsesAllocator::alloc: it makes the call, and does not apply it.
pub uses_alloc : {K : Type 0} → MutexCall K ℕ ℕ → ℕ → ℕ → Heaps → Option (Heaps × ℕ)
unfolding heap_call placement_new
uses_alloc get_heap uses stale heaps =
    let ptr : ℕ = 0 in let call = heap_call get_heap uses in placement_new stale ptr heaps
