-- ===== src/BufferCache/Tests.antt =====
-- Concrete runs of the theorems of the cache.
use drumlin.Prelude.{ℕ, ◌≡◌, [], ◌∷◌, ◌++◌, length, nat_eq, bytes_eq}
use drumlin.UseIdent.{UseIdent}
use drumlin.Filters.{UseIdentFilter}
use drumlin.Heap.{Heap}
use drumlin.BufferCache.{
  BufferCache, addresses, clear_allocated, find_relevant, subscribe, publish, add_allocated,
}
use drumlin.BufferCache.Publishing.{cache_blind}

abbrev ident_a : UseIdent
ident_a = record { source = 1; source_name = b'n' ∷ []; specification = (b'a' ∷ []) ∷ []; tick = 5 }

abbrev one_block : Heap
one_block = record {
  allocated = 1;
  total = 4;
  size = 64;
  memory = 4096;
  free_ptr = 4096;
  align = 16;
  max = 1024;
  blocks = record { first = 4096; second = 4096 } ∷ [];
}

-- The heap at 7 is exposed as ident_a, and 99 has subscribed to it.
abbrev filter_a : UseIdentFilter
filter_a = record { ident = ident_a }

abbrev one_entry : BufferCache
one_entry = record {
  buffers = (ident_a, 7) ∷ [];
  subscriptions = (filter_a, 99) ∷ [];
  heaps = λ p. one_block;
  accepted = [];
}

abbrev ident_at : ℕ → UseIdent
ident_at p = ident_a

cache_blind_example :
    (clear_allocated filter_a one_entry ≡ (one_entry, 0))
    × (find_relevant filter_a one_entry ≡ [])
    × (subscribe (filter_a, 98) one_entry
        ≡ (record one_entry { subscriptions = one_entry.subscriptions ++ (filter_a, 98) ∷ [] }, []))
    × (publish ident_at 4096 one_entry ≡ (one_entry, 0))
    × (add_allocated ident_at (ident_a, 8) one_entry ≡ (
      record one_entry { buffers = one_entry.buffers ++ (ident_a, 8) ∷ [] },
      length (addresses (one_entry.heaps 8)),
    ))
cache_blind_example = cache_blind ident_at filter_a (filter_a, 98) 4096 (ident_a, 8) one_entry
