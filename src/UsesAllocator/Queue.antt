-- ===== src/UsesAllocator/Queue.antt =====
-- uses_allocator.cpp, getQueueSize: what the division of two durations leaves of a queue.
use drumlin.Prelude.{
  ℕ, ◌+◌, ◌*◌, ◌/◌, ◌%◌, ◌≤◌, ◌<◌, ◌≡◌, sym, ap, ◌∙◌, ◌⊎◌, inl, inr, some, arith, ltb, Bool-cases,
  nat_eq, bytes_eq,
}
use native.Mathlib.Nat.{div-add-mod, div-eq_of_lt, mul_assoc, mul_comm, mul-add}
use drumlin.UsesAllocator.{UsesAllocator, queue_size}

shortfall : (b p q r : ℕ) → b * q * p + b * r ≡ b * (p * q + r)
shortfall b p q r =
    ap (λ x. x + b * r) (mul_assoc b q p ∙ ap (λ x. b * x) (mul_comm q p))
    ∙ sym (mul-add b (p * q) r)

-- getQueueSize divides tau by the process time before it multiplies: where it has a value, that value
-- stands for a number of buffers, and this number times the process time falls short of
-- the buffer size times tau by the buffer size times the remainder of the division. In
-- particular it is none when tau is shorter than the process time.
pub queue_size_shortfall :
    (via_double : ℕ → ℕ) (uses : UsesAllocator) (n : ℕ)
    → queue_size via_double uses ≡ some n
    → (count : ℕ) × (n ≡ via_double count)
      × (count * uses.process + uses.buffer_size * (uses.tau % uses.process)
          ≡ uses.buffer_size * uses.tau)
      × ((uses.process ≤ uses.tau) ⊎ (count ≡ 0))
unfolding queue_size
queue_size_shortfall via_double uses n e =
    let b = uses.buffer_size in
    let q = uses.tau / uses.process in
    let r = uses.tau % uses.process in
    let sum : b * (uses.process * q + r) ≡ b * uses.tau =
      ap (λ x. b * x) (div-add-mod uses.tau uses.process) in
    (
      b * q,
      ground (arith, e),
      shortfall b uses.process q r ∙ sum,
      elim (Bool-cases (ltb uses.tau uses.process)) [
        | inl less ↦
            let short : uses.tau < uses.process = ground (arith, less) in
            inr (rw (div-eq_of_lt short) (omega arith))
        | inr not_less ↦ inl (ground (arith, not_less))
      ],
    )
