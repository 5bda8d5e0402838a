-- ===== src/Allocator/Sharing.antt =====
-- allocator.cpp and buffer_cache.h: registerUse and unregisterUse, called by any number of threads through
-- access::allocator, under its recursive mutex. malloc's result and the address of the new heap_t are part of a request. Nobody calls the
-- cache meanwhile.
use drumlin.Prelude.{
  ℕ, ◌≡◌, ◌≢◌, refl, sym, ap, ◌∙◌, ◌⊎◌, inl, inr, Bool, Option, none, some, List, [], ◌∷◌, map, All,
  Option-cases, nat_eq, bytes_eq,
}
use mathlib.Core.Option.{some_inj, none-ne-some}
use drumlin.UsesAllocator.{UsesAllocator, queue_size}
use drumlin.Heap.{std_align}
use drumlin.Allocator.{
  Allocator, Registered, registered, enomem, enoalign, undefined, heap_bytes, register_heap,
  register_use, get_heap, unregister_use,
}
use drumlin.Allocator.Registering.{register_heap-placed, register_use-known, get_heap-register_use}
use drumlin.Allocator.Freeing.{unregister_use_cases}
use drumlin.Access.{Call}
use drumlin.Access.Recursive.{waiting, System, Reach, at_start}
use drumlin.Access.Recursive.Holding.{Excludes, throw-Excludes}
use drumlin.Access.Recursive.Preserving.{Keeps, Reach-Keeps}

-- A call of registerUse or of unregisterUse.
pub data Request : Type 0 where
  registering : ℕ × UsesAllocator → ℕ → Option ℕ → ℕ → Request
  unregistering : ℕ → Request

-- What is left of the allocator; an exception leaves none.
unfoldable pub made : Registered → Option Allocator
made (registered a pointer) = some a
made enomem = none
made enoalign = none
made undefined = none

module _ (before : ℕ → ℕ → Bool) (via_double : ℕ → ℕ) (sources : ℕ → UsesAllocator)
    (held : ℕ → Bool) where
  unfoldable pub perform : Request → Allocator → Option Allocator
  unfolding made
  perform (registering user alignment malloced pointer) a =
      made (register_use before via_double user alignment malloced pointer a)
  perform (unregistering uses) a = some (unregister_use sources held uses a).0

  -- The calls of a thread that makes requests, one after the other.
  unfoldable pub calls_of : List Request → List (Call Allocator)
  unfolding perform
  calls_of requests = map (λ r. perform r ∷ []) requests

  -- A request that leaves a key alone: a registration of a user whose queue size has a value, or an
  -- unregistering of another key.
  unfoldable pub LeavesKey : ℕ → Request → Type 0
  LeavesKey key (registering user alignment malloced pointer) =
      (n : ℕ) × (queue_size via_double user.1 ≡ some n)
  LeavesKey key (unregistering uses) = key ≢ uses

  malloc_fails :
      (user : ℕ × UsesAllocator) (alignment n pointer : ℕ) (a : Allocator)
      → queue_size via_double user.1 ≡ some n
      → perform (registering user alignment none pointer) a ≡ none
  unfolding perform register_use register_heap
  malloc_fails user alignment n pointer a q = rw (q, register_use) refl

  gives_heap :
      (user : ℕ × UsesAllocator) (alignment n block pointer : ℕ) (a r : Allocator)
      → queue_size via_double user.1 ≡ some n
      → perform (registering user alignment (some block) pointer) a ≡ some r
      → register_use before via_double user alignment (some block) pointer a ≡ registered r pointer
  unfolding perform made register_heap
  gives_heap user alignment n block pointer a r q h =
      let known = register_use-known before via_double user alignment n pointer (some block) a q in
      let sz = user.1.data_length in
      elim (Option-cases (std_align alignment sz block (heap_bytes sz n))) [
        | inl f ↦
            let g : register_heap before user alignment n (some block) pointer a ≡ enoalign =
              rw (f, register_heap) in
            absurd (none-ne-some r (sym (ap made (known ∙ g)) ∙ h))
        | inr (placed, f) ↦
            let e =
              known
              ∙ register_heap-placed before via_double user alignment n block pointer placed a f in
            e ∙ ap (λ x. registered x pointer) (some_inj.0 (sym (ap made e) ∙ h))
      ]

  registering-Keeps :
      (key old : ℕ) (user : ℕ × UsesAllocator) (alignment n pointer : ℕ) (malloced : Option ℕ)
      → queue_size via_double user.1 ≡ some n
      → Keeps
          (λ a. get_heap key a ≡ some old)
          (perform (registering user alignment malloced pointer))
  unfolding perform
  registering-Keeps key old user alignment n pointer none q a r h k =
      absurd (none-ne-some r (sym (malloc_fails user alignment n pointer a q) ∙ h))
  registering-Keeps key old user alignment n pointer (some block) q a r h k =
      let (own, elsewhere) =
        get_heap-register_use before via_double user alignment n block pointer key a r q
          (gives_heap user alignment n block pointer a r q h) in
      elim elsewhere [
        | inr kept ↦ kept ∙ k
        | inl same ↦ elim own [
          | inl (unknown, new) ↦
              absurd (none-ne-some old (sym unknown ∙ ap (λ x. get_heap x a) (sym same) ∙ k))
          | inr (found, before_it, behind) ↦
              ap (λ x. get_heap x r) same
              ∙ behind
              ∙ sym before_it
              ∙ ap (λ x. get_heap x a) (sym same)
              ∙ k
        ]
      ]

  unregistering-Keeps :
      (key old uses : ℕ)
      → key ≢ uses
      → Keeps (λ a. get_heap key a ≡ some old) (perform (unregistering uses))
  unfolding perform
  unregistering-Keeps key old uses d a r h k =
      ap (get_heap key) (sym (some_inj.0 h)) ∙ elim (unregister_use_cases sources held uses key a) [
        | inl (unknown, same) ↦ ap (λ (x : Allocator × ℕ). get_heap key x.0) same ∙ k
        | inr (p, _, (_, _, elsewhere, _)) ↦ elim elsewhere [
          | inl same ↦ absurd (d same)
          | inr kept ↦ kept ∙ k
        ]
      ]

  requests_keep :
      (key old : ℕ) (requests : List Request)
      → All (LeavesKey key) requests
      → All (All (Keeps (λ a. get_heap key a ≡ some old))) (calls_of requests)
  unfolding calls_of LeavesKey
  requests_keep key old [] all = tt
  requests_keep key old (registering user alignment malloced pointer ∷ rest) ((n, q), all) = (
    (registering-Keeps key old user alignment n pointer malloced q, tt),
    requests_keep key old rest all,
  )
  requests_keep key old (unregistering uses ∷ rest) (d, all) =
      ((unregistering-Keeps key old uses d, tt), requests_keep key old rest all)

  -- However many threads register users and unregister others, and however their steps follow one another, a key that
  -- led to a heap_t at the start leads to that heap_t in every state they reach, also when its own
  -- user is registered once more, and where calls have thrown and their threads go on. The queue sizes of the users have a value.
  pub get_heap-Reach :
      (requests : ℕ → List Request) (key old : ℕ) (start : Allocator) (s : System Allocator)
      → get_heap key start ≡ some old
      → ((p : ℕ) → All (LeavesKey key) (requests p))
      → Reach (at_start start (λ p. calls_of (requests p))) s
      → get_heap key s.shared ≡ some old
  get_heap-Reach requests key old start s k all r =
      Reach-Keeps (λ a. get_heap key a ≡ some old) start (λ p. calls_of (requests p)) s
        (λ p. requests_keep key old (requests p) (all p)) k r

  -- In a state that is reached from the start, where a thread can take the mutex, and its next call is a
  -- registration for which malloc finds no memory: the thread can throw ENOMEM and go on with its further calls,
  -- the allocator being as it was. From then on, whatever the threads do, it has the mutex, and no other
  -- thread ever comes any further, neither into a call nor out of one.
  pub register_use-Excludes :
      (requests : ℕ → List Request) (start : Allocator) (s : System Allocator) (p : ℕ)
      (user : ℕ × UsesAllocator) (alignment n pointer : ℕ) (rest : List Request)
      → Reach (at_start start (λ q. calls_of (requests q))) s
      → (s.depth ≡ 0) ⊎ (s.owner ≡ p)
      → s.pc p ≡ waiting (calls_of (registering user alignment none pointer ∷ rest))
      → queue_size via_double user.1 ≡ some n
      → (t : System Allocator) × Reach s t
        × (t.shared ≡ s.shared)
        × (t.pc p ≡ waiting (calls_of rest))
        × ((u : System Allocator) → Reach t u → Excludes p t u)
  unfolding calls_of
  register_use-Excludes requests start s p user alignment n pointer rest r free e q =
      throw-Excludes start (λ x. calls_of (requests x)) s p
        (perform (registering user alignment none pointer)) [] (calls_of rest) r free e
        (malloc_fails user alignment n pointer s.shared q)
