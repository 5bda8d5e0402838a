-- ===== src/BufferCache.antt =====
-- buffer.h, buffer_cache.h and buffer_cache.cpp, BufferCache: the heaps that are exposed under an
-- identity, and who wants to hear of their buffers. `heaps` is the memory of the shared heap_t
-- objects, `ident_at` gives the identity of the HeapBuffer at an address, and `accepted` records the
-- calls of Acceptor::accept. The cache keeps and takes its filters by value, so that the operator== that
-- it runs is UseIdentFilter's own, `matches_base`.
pub mod Clearing
pub mod Memory
pub mod Publishing
mod Tests
use drumlin.Prelude.{
  ℕ, ◌+◌, ◌%◌, ◌^◌, Bool, not, ◌&&◌, List, [], ◌∷◌, ◌++◌, map, ◌==◌, if◌then◌else◌, length, keep,
  nat_eq, bytes_eq,
}
use drumlin.UseIdent.{UseIdent, equals}
use drumlin.Filters.{UseIdentFilter, matches_base}
use drumlin.Heap.{Block, Heap, free_all}

pub record BufferCache : Type 0 where
  pub buffers : List (UseIdent × ℕ)
  pub subscriptions : List (UseIdentFilter × ℕ)
  pub heaps : ℕ → Heap
  pub accepted : List (ℕ × ℕ)

unfoldable pub update : (ℕ → Heap) → ℕ → Heap → ℕ → Heap
update heaps p h q = if q == p then h else heaps q

-- operator== of the pairs in m_buffers.
pub equals_pair : UseIdent × ℕ → UseIdent × ℕ → Bool
equals_pair a b = equals a.0 b.0 && a.1 == b.1

-- The erase loop of clearAllocated: every pair that was collected is removed wherever it stands.
pub remove_pairs : List (UseIdent × ℕ) → List (UseIdent × ℕ) → List (UseIdent × ℕ)
unfolding equals_pair
remove_pairs [] buffers = buffers
remove_pairs (it ∷ pairs) buffers = remove_pairs pairs (keep (λ b. not (equals_pair b it)) buffers)

-- The addresses of a heap's blocks, free or not.
abbrev pub addresses : Heap → List ℕ
addresses h = map (λ (b : Block). b.second) h.blocks

-- unsubscribe, with the number of subscriptions that it removed.
unfoldable pub unsubscribe : ℕ → BufferCache → BufferCache × ℕ
unsubscribe acceptor cache = (
  record cache { subscriptions = keep (λ s. not (s.1 == acceptor)) cache.subscriptions },
  length (keep (λ s. s.1 == acceptor) cache.subscriptions),
)

-- The first loop of clearAllocated: the heaps of the relevant pairs are emptied.
pub free_relevant : UseIdentFilter → List (UseIdent × ℕ) → (ℕ → Heap) → ℕ → (ℕ → Heap) × ℕ
unfolding update matches_base
free_relevant ident [] heaps n = (heaps, n)
free_relevant ident (pair ∷ rest) heaps n =
    let (emptied, freed) = free_all (heaps pair.1) in
    let hit = matches_base ident pair.0 in
    free_relevant ident rest (if hit then update heaps pair.1 emptied else heaps)
      (if hit then n + freed else n)

-- clearAllocated
unfoldable pub clear_allocated : UseIdentFilter → BufferCache → BufferCache × ℕ
unfolding free_relevant remove_pairs matches_base
clear_allocated ident cache =
    let (heaps, n) = free_relevant ident cache.buffers cache.heaps 0 in
    let pairs = keep (λ pair. matches_base ident pair.0) cache.buffers in
    (record cache { heaps = heaps; buffers = remove_pairs pairs cache.buffers }, n)

pub find_loop : UseIdentFilter → List (UseIdent × ℕ) → (ℕ → Heap) → List ℕ
unfolding matches_base
find_loop ident [] heaps = []
find_loop ident (buffer ∷ rest) heaps =
    (if matches_base ident buffer.0 then addresses (heaps buffer.1) else [])
    ++ find_loop ident rest heaps

-- findRelevant
pub find_relevant : UseIdentFilter → BufferCache → List ℕ
unfolding find_loop
find_relevant ident cache = find_loop ident cache.buffers cache.heaps

-- subscribe
unfoldable pub subscribe : UseIdentFilter × ℕ → BufferCache → BufferCache × List ℕ
unfolding find_relevant
subscribe sub cache =
    let pushed = record cache { subscriptions = cache.subscriptions ++ sub ∷ [] } in
    (pushed, find_relevant sub.0 pushed)

module _ (ident_at : ℕ → UseIdent) where
  -- The loop of publish: the calls of accept, and their number in 32 bits.
  pub publish_loop : List (UseIdentFilter × ℕ) → ℕ → List (ℕ × ℕ) → ℕ → List (ℕ × ℕ) × ℕ
  unfolding matches_base
  publish_loop [] buffer accepted c = (accepted, c)
  publish_loop (sub ∷ rest) buffer accepted c =
      let hit = matches_base sub.0 (ident_at buffer) in
      publish_loop rest buffer (if hit then accepted ++ (sub.1, buffer) ∷ [] else accepted)
        (if hit then (c + 1) % 2 ^ 32 else c)

  -- publish
  pub publish : ℕ → BufferCache → BufferCache × ℕ
  unfolding publish_loop
  publish buffer cache =
      let (accepted, c) = publish_loop cache.subscriptions buffer cache.accepted 0 in
      (record cache { accepted = accepted }, c)

  pub publish_all : List ℕ → BufferCache → BufferCache
  unfolding publish
  publish_all [] cache = cache
  publish_all (buffer ∷ rest) cache = publish_all rest (publish buffer cache).0

  -- addAllocated, with the number of blocks of the heap.
  pub add_allocated : UseIdent × ℕ → BufferCache → BufferCache × ℕ
  unfolding publish_all
  add_allocated pair cache =
      let pushed = record cache { buffers = cache.buffers ++ pair ∷ [] } in
      let blocks = addresses (cache.heaps pair.1) in (publish_all blocks pushed, length blocks)
