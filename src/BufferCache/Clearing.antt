-- ===== src/BufferCache/Clearing.antt =====
-- buffer_cache.cpp, clearAllocated and findRelevant, with the filters held by value.
use drumlin.Prelude.{ℕ, ◌≡◌, refl, List, [], ◌∷◌, keep, nat_eq, bytes_eq}
use drumlin.UseIdent.{UseIdent}
use drumlin.Filters.{UseIdentFilter, matches_base}
use drumlin.Heap.{Heap}
use drumlin.BufferCache.{BufferCache, free_relevant, clear_allocated, find_loop, find_relevant}

free_relevant_blind :
    (ident : UseIdentFilter) (bs : List (UseIdent × ℕ)) (heaps : ℕ → Heap) (n : ℕ)
    → free_relevant ident bs heaps n ≡ (heaps, n)
unfolding free_relevant
free_relevant_blind ident [] heaps n = refl
free_relevant_blind ident (pair ∷ bs) heaps n = free_relevant_blind ident bs heaps n

find_loop_blind :
    (ident : UseIdentFilter) (bs : List (UseIdent × ℕ)) (heaps : ℕ → Heap)
    → find_loop ident bs heaps ≡ []
unfolding find_loop
find_loop_blind ident [] heaps = refl
find_loop_blind ident (pair ∷ bs) heaps = find_loop_blind ident bs heaps

keep_blind :
    (ident : UseIdentFilter) (bs : List (UseIdent × ℕ))
    → keep (λ pair. matches_base ident pair.0) bs ≡ []
unfolding matches_base
keep_blind ident [] = refl
keep_blind ident (pair ∷ bs) = keep_blind ident bs

-- The test that the cache runs on its filters, which it holds by value, finds no identity relevant: for
-- every filter, clearAllocated changes nothing and counts nothing, and findRelevant finds nothing.
pub clear_allocated_blind :
    (ident : UseIdentFilter) (cache : BufferCache)
    → (clear_allocated ident cache ≡ (cache, 0)) × (find_relevant ident cache ≡ [])
unfolding clear_allocated find_relevant
clear_allocated_blind ident cache = (
  rw (free_relevant_blind ident cache.buffers cache.heaps 0, keep_blind ident cache.buffers),
  find_loop_blind ident cache.buffers cache.heaps,
)
