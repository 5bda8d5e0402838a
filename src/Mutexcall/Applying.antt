-- ===== src/Mutexcall/Applying.antt =====
-- mutexcall.h: what applying a call does, and what becomes of one that is not applied.
use drumlin.Prelude.{
  ℕ, ◌≡◌, refl, ◌≢◌, ◌⊎◌, inl, inr, false, Option, none, some, arith, ◌==◌, if◌then◌else◌, nat_eq,
  bytes_eq,
}
use drumlin.Heap.{alloc}
use drumlin.Mutexcall.{
  MutexCall, cps_call, cps_call_void, apply, apply_void, mutex_call, Heaps, heap_call, keep_heap,
  placement_new, uses_alloc,
}

-- A call with a continuation and one without do the same to the object and give the same value, which
-- the continuation is called with once, and an empty one leaves what it captures.
apply-apply_void :
    {K : Type 0} {R : Type 0} {P : Type 0} {S : Type 0} (call : MutexCall K R P) (param : P)
    (continuer : Option (R → S → S)) (klass : K) (captured : S)
    → let (result, left) = apply (cps_call continuer call param) klass captured in
      (result ≡ apply_void (cps_call_void call param) klass)
      × (((continuer ≡ none) × (left ≡ captured))
          ⊎ ((go_on : R → S → S) × (continuer ≡ some go_on)
              × (left ≡ go_on (apply_void (cps_call_void call param) klass).1 captured)))
unfolding apply apply_void cps_call cps_call_void mutex_call
apply-apply_void call param none klass captured = (refl, inl (refl, refl))
apply-apply_void call param (some go_on) klass captured = (refl, inr (go_on, refl, refl))

-- UsesAllocator::alloc allocates through the null pointer, also for a user with a heap, where the call
-- that it makes, if it were applied, would have given the heap to allocate from.
uses_alloc_undefined :
    {K : Type 0} (get_heap : MutexCall K ℕ ℕ) (uses stale heap : ℕ) (klass : K) (heaps : Heaps)
    → (mutex_call get_heap klass uses).1 ≡ heap
    → heap ≢ 0
    → (uses_alloc get_heap uses stale heaps ≡ none)
      × ((apply (heap_call get_heap uses) klass 0).1 ≡ heap)
      × (placement_new stale heap heaps
          ≡ some (
            λ q. if q == heap then (alloc stale (heaps heap)).0 else heaps q,
            (alloc stale (heaps heap)).1,
          ))
unfolding uses_alloc placement_new apply heap_call cps_call keep_heap mutex_call
uses_alloc_undefined get_heap uses stale heap klass heaps found ne =
    let z : (heap == 0) ≡ false = ground (arith, ne) in (refl, rw (found, z), rw z)
