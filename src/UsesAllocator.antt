-- ===== src/UsesAllocator.antt =====
-- uses_allocator.h and uses_allocator.cpp: what a user of a heap declares of its needs. Durations are
-- counts of microseconds that are not negative. `via_double` is the way of an integer through
-- std::ceil and back. The allocation templates and the reports stand in other files.
mod Queue
mod Tests
use drumlin.Prelude.{
  ℕ, ◌*◌, ◌/◌, ◌^◌, ◌||◌, Option, none, some, leb, ◌==◌, if◌then◌else◌, Bytes, nat_eq, bytes_eq,
}

pub record UsesAllocator : Type 0 where
  pub data_length : ℕ
  pub buffer_size : ℕ
  pub tau : ℕ
  pub process : ℕ
  pub token : Bytes
  pub memory_allocated : ℕ

-- The constructor from a token; the other fields keep what the memory holds.
unfoldable of_token : UsesAllocator → Bytes → UsesAllocator
of_token memory token = record memory { token = token }

-- operator= and the copying constructor.
pub assign : UsesAllocator → UsesAllocator → UsesAllocator
assign self rhs = record {
  data_length = rhs.data_length;
  buffer_size = rhs.buffer_size;
  tau = rhs.tau;
  process = rhs.process;
  token = rhs.token;
  memory_allocated = rhs.memory_allocated;
}

unfoldable set_data_length : UsesAllocator → ℕ → UsesAllocator
set_data_length uses data_length = record uses { data_length = data_length }

unfoldable set_back_length : UsesAllocator → ℕ → UsesAllocator
set_back_length uses ttl = record uses { buffer_size = ttl }

set_tau : UsesAllocator → ℕ → UsesAllocator
set_tau uses tau = record uses { tau = tau }

set_process_length : UsesAllocator → ℕ → UsesAllocator
set_process_length uses process = record uses { process = process }

-- withTauProcess
unfoldable with_tau_process : UsesAllocator → ℕ → ℕ → UsesAllocator
unfolding assign set_tau set_process_length
with_tau_process uses tau process = set_process_length (set_tau (assign uses uses) tau) process

-- getQueueSize; a division by zero and a product past int64 are undefined.
unfoldable pub queue_size : (ℕ → ℕ) → UsesAllocator → Option ℕ
queue_size via_double uses =
    let product = uses.buffer_size * (uses.tau / uses.process) in
    if uses.process == 0 || leb (2 ^ 63) product then none else some (via_double product)
