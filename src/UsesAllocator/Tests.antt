-- ===== src/UsesAllocator/Tests.antt =====
-- Concrete runs of the theorems of the queue size.
use drumlin.Prelude.{ℕ, ◌+◌, ◌*◌, ◌%◌, ◌≤◌, ◌≡◌, refl, ◌⊎◌, some, [], ◌∷◌, nat_eq, bytes_eq}
use drumlin.UsesAllocator.{UsesAllocator, queue_size}
use drumlin.UsesAllocator.Queue.{queue_size_shortfall}

abbrev user : UsesAllocator
user = record {
  data_length = 64;
  buffer_size = 4;
  tau = 20;
  process = 10;
  token = b'u' ∷ [];
  memory_allocated = 0;
}

abbrev same : ℕ → ℕ
same n = n

eight : queue_size same user ≡ some 8
unfolding queue_size
eight = refl

queue_size_shortfall_example :
    (count : ℕ) × (8 ≡ same count)
    × (count * user.process + user.buffer_size * (user.tau % user.process)
        ≡ user.buffer_size * user.tau)
    × ((user.process ≤ user.tau) ⊎ (count ≡ 0))
queue_size_shortfall_example = queue_size_shortfall same user 8 eight
