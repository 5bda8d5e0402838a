-- ===== src/BufferCache/Memory.antt =====
-- buffer_cache.cpp, clearAllocated: the memory of the heaps stays theirs.
use drumlin.Prelude.{ℕ, refl, ◌∙◌, Bool, List, [], ◌∷◌, arith, if◌then◌else◌, nat_eq, bytes_eq}
use drumlin.UseIdent.{UseIdent}
use drumlin.Filters.{UseIdentFilter, matches_base}
use drumlin.Heap.{Heap, free_all}
use drumlin.Heap.Counting.{IsSameMemory, free_all-IsSameMemory}
use drumlin.BufferCache.{BufferCache, update, free_relevant, clear_allocated}

update-IsSameMemory :
    (q p : ℕ) (hit : Bool) (heaps : ℕ → Heap)
    → IsSameMemory ((if hit then update heaps q (free_all (heaps q)).0 else heaps) p) (heaps p)
unfolding update
update-IsSameMemory q p hit heaps = ground (arith, free_all-IsSameMemory (heaps q))

free_relevant-IsSameMemory :
    (ident : UseIdentFilter) (bs : List (UseIdent × ℕ)) (heaps : ℕ → Heap) (n p : ℕ)
    → IsSameMemory ((free_relevant ident bs heaps n).0 p) (heaps p)
unfolding free_relevant matches_base
free_relevant-IsSameMemory ident [] heaps n p = (refl, refl, refl)
free_relevant-IsSameMemory ident (pair ∷ bs) heaps n p =
    let (x, y, z) = free_relevant-IsSameMemory ident bs _ _ p in
    let (u, v, w) = update-IsSameMemory pair.1 p (matches_base ident pair.0) heaps in
    (x ∙ u, y ∙ v, z ∙ w)

pub clear_allocated-IsSameMemory :
    (ident : UseIdentFilter) (cache : BufferCache) (p : ℕ)
    → IsSameMemory ((clear_allocated ident cache).0.heaps p) (cache.heaps p)
unfolding clear_allocated
clear_allocated-IsSameMemory ident cache p =
    free_relevant-IsSameMemory ident cache.buffers cache.heaps 0 p
