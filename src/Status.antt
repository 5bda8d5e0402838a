-- ===== src/Status.antt =====
-- The reports to a status: heap_t::toJson and Allocator::getStatus (allocator.cpp), BufferCache::getStatus
-- (buffer_cache.cpp), UseIdent::toJson (use_ident.cpp), ThreadWorker::report and writeToObject
-- (thread_worker.cpp) and Application::getStatus (application.cpp). The values of tao::json are
-- a parameter, an object_t is the std::map that it is, and so are the names of the enumerators, SHA-256, and
-- what a worker's own getStatus adds.
pub mod Workers
mod Tests
use drumlin.Prelude.{
  ℕ, Option, none, some, List, [], ◌∷◌, ◌++◌, map, ◌==◌, ◌||◌, some_of, if◌then◌else◌, Bytes, codes,
  nat_eq, bytes_eq, lt_bytes, lookup, place, insert,
}
use drumlin.StringList.{to_stream}
use drumlin.UsesAllocator.{UsesAllocator}
use drumlin.UseIdent.{UseIdent, get_hash}
use drumlin.Filters.{UseIdentFilter}
use drumlin.Heap.{Heap}
use drumlin.BufferCache.{BufferCache}
use drumlin.Allocator.{Allocator}
use drumlin.Threads.{Application}

-- What tao::json makes values of.
pub record Json : Type 1 where
  pub Value : Type 0
  pub number : ℕ → Value
  pub text : Bytes → Value
  pub array : List Value → Value
  pub object : List (Bytes × Value) → Value

module _ (json : Json) where
  open json use {Value, number, text, array, object}

  abbrev pub Members : Type 0
  Members = List (Bytes × Value)

  -- `obj.insert({key, value})`: a member that is there stays.
  pub put : Bytes → Value → Members → Members
  unfolding insert place lookup
  put key value obj = insert lt_bytes key value obj

  -- heap_t::toJson
  pub heap_to_json : Heap → Members → Members
  unfolding put
  heap_to_json h obj = put (codes "align") (number h.align) (
      put (codes "size") (number h.size)
        (put (codes "total") (number h.total) (put (codes "allocated") (number h.allocated) obj)))

  -- An entry of the list of heaps: a user and the address of its heap.
  pub heap_entry : (ℕ → UsesAllocator) → (ℕ → Heap) → ℕ × ℕ → Members
  unfolding heap_to_json put
  heap_entry sources heaps (uses, pointer) =
      heap_to_json (heaps pointer) (put (codes "token") (text (sources uses).token) [])

  -- Allocator::getStatus
  unfoldable pub allocator_status : (ℕ → UsesAllocator) → Allocator → Members → Members
  unfolding heap_entry put
  allocator_status sources a status =
      let heaps = map (λ h. object (heap_entry sources a.cache.heaps h)) a.heap_map in
      put (codes "allocator") (object (put (codes "heaps") (array heaps) [])) status

  -- UseIdent::toJson
  pub ident_to_json : (Bytes → Bytes) → UseIdent → Members → Members
  unfolding put to_stream get_hash
  ident_to_json sha256 ident obj = put (codes "hash") (text (get_hash sha256 ident)) (
      put (codes "spec") (text (to_stream ident.specification))
        (put (codes "source") (text ident.source_name) obj))

  -- BufferCache::getStatus
  unfoldable pub cache_status : (Bytes → Bytes) → BufferCache → Members → Members
  unfolding ident_to_json put
  cache_status sha256 cache status =
      let subs =
        map (λ (s : UseIdentFilter × ℕ). object (ident_to_json sha256 s.0.ident []))
          cache.subscriptions in
      put (codes "cache") (object (put (codes "subs") (array subs) [])) status

  -- ThreadWorker::report and writeToObject
  pub worker_report : Bytes → Members → Members
  unfolding put
  worker_report type_name obj = put (codes "type") (text type_name) obj

  pub write_to_object : Bytes → Members → Members
  unfolding worker_report
  write_to_object type_name obj = put (codes "type") (text type_name) (worker_report type_name obj)

  module _ (type_name : ℕ → Bytes) (own : ℕ → Members → Members) where
    -- The loop of Application::getStatus; a deleted thread is read beyond its life, and one without a worker is
    -- gone through the null pointer.
    pub status_loop : Application → List ℕ → List Value → Members → Option (List Value × Members)
    unfolding write_to_object
    status_loop app [] values status = some (values, status)
    status_loop app (p ∷ threads) values status =
        let t = app.thread_at p in
        let value = object (write_to_object (type_name t.worker_type) []) in
        let rest = status_loop app threads (values ++ value ∷ []) (own t.worker status) in
        if some_of (λ q. q == p) app.deleted || t.worker == 0 then none else rest

    -- Application::getStatus
    pub application_status : Application → Members → Option Members
    unfolding status_loop
    application_status app status = elim (status_loop app app.threads [] status) [
      | none ↦ none
      | some (values, after) ↦ some (put (codes "threads") (array values) after)
    ]
