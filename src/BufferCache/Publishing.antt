-- ===== src/BufferCache/Publishing.antt =====
-- buffer_cache.cpp, publish, subscribe and addAllocated, with the filters held by value.
use drumlin.Prelude.{ℕ, ◌≡◌, refl, ap, ◌∙◌, List, [], ◌∷◌, ◌++◌, length, nat_eq, bytes_eq}
use drumlin.UseIdent.{UseIdent}
use drumlin.Filters.{UseIdentFilter, matches_base}
use drumlin.BufferCache.{
  BufferCache, addresses, clear_allocated, find_relevant, subscribe, publish_loop, publish,
  publish_all, add_allocated,
}
use drumlin.BufferCache.Clearing.{clear_allocated_blind}

module _ (ident_at : ℕ → UseIdent) where
  publish_loop_blind :
      (subs : List (UseIdentFilter × ℕ)) (buffer : ℕ) (accepted : List (ℕ × ℕ)) (c : ℕ)
      → publish_loop ident_at subs buffer accepted c ≡ (accepted, c)
  unfolding publish_loop matches_base
  publish_loop_blind [] buffer accepted c = refl
  publish_loop_blind (sub ∷ rest) buffer accepted c = publish_loop_blind rest buffer accepted c

  publish_blind : (buffer : ℕ) (cache : BufferCache) → publish ident_at buffer cache ≡ (cache, 0)
  unfolding publish
  publish_blind buffer cache =
      ap (λ (r : List (ℕ × ℕ) × ℕ). (record cache { accepted = r.0 }, r.1))
        (publish_loop_blind cache.subscriptions buffer cache.accepted 0)

  publish_all_blind :
      (buffers : List ℕ) (cache : BufferCache) → publish_all ident_at buffers cache ≡ cache
  unfolding publish_all
  publish_all_blind [] cache = refl
  publish_all_blind (buffer ∷ rest) cache =
      publish_all_blind rest (publish ident_at buffer cache).0
      ∙ ap (λ (r : BufferCache × ℕ). r.0) (publish_blind buffer cache)

  -- Since the filters are held by value, the cache connects nobody: whatever stands in it, clearAllocated frees
  -- and drops nothing and counts 0, findRelevant finds nothing, subscribe enters the subscription and
  -- finds nothing, publish calls no acceptor and counts 0, and addAllocated enters the heap and calls
  -- no acceptor, though it counts the blocks of the heap.
  pub cache_blind :
      (ident : UseIdentFilter) (sub : UseIdentFilter × ℕ) (buffer : ℕ) (pair : UseIdent × ℕ)
      (cache : BufferCache)
      → (clear_allocated ident cache ≡ (cache, 0))
        × (find_relevant ident cache ≡ [])
        × (subscribe sub cache
            ≡ (record cache { subscriptions = cache.subscriptions ++ sub ∷ [] }, []))
        × (publish ident_at buffer cache ≡ (cache, 0))
        × (add_allocated ident_at pair cache ≡ (
          record cache { buffers = cache.buffers ++ pair ∷ [] },
          length (addresses (cache.heaps pair.1)),
        ))
  unfolding subscribe add_allocated
  cache_blind ident sub buffer pair cache =
      let (cleared, found) = clear_allocated_blind ident cache in
      let pushed : BufferCache = record cache { subscriptions = cache.subscriptions ++ sub ∷ [] } in
      let added : BufferCache = record cache { buffers = cache.buffers ++ pair ∷ [] } in
      let blocks = addresses (cache.heaps pair.1) in
      (
        cleared,
        found,
        ap (λ (xs : List ℕ). (pushed, xs)) (clear_allocated_blind sub.0 pushed).1,
        publish_blind buffer cache,
        ap (λ (c : BufferCache). (c, length blocks)) (publish_all_blind blocks added),
      )
