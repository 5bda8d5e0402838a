-- ===== src/Buffers/Reading.antt =====
-- buffer.cpp: what the two conversions of a HeapBuffer read, and how long it is used.
use drumlin.Prelude.{
  ℕ, zero, suc, ◌+◌, ◌^◌, ◌≤◌, ◌<◌, ◌≡◌, refl, subst, none, some, arith, length, Bytes, nat_eq,
  bytes_eq,
}
use drumlin.ByteArray.{from_data}
use drumlin.ByteArray.Strings.{owned, from_data-owned}
use drumlin.Buffers.{HeapBuffer, read, to_byte_array, to_string}

length-read : (memory : ℕ → ℕ) (address n : ℕ) → length (read memory address n) ≡ n
unfolding read
length-read memory address zero = refl
length-read memory address (suc n) = rw (length-read memory (address + 1) n)

-- A buffer with a byte at least, and of less than 2 ^ 31 bytes: its string and its byte_array hold the same bytes, as
-- many as it is long, and the byte_array owns its copy of them.
pub to_byte_array-to_string :
    (memory : ℕ → ℕ) (b : HeapBuffer)
    → 0 < b.len
    → b.len < 2 ^ 31
    → (bytes : Bytes) × (length bytes ≡ b.len)
      × (to_string memory b ≡ some bytes)
      × (to_byte_array memory b ≡ some (owned bytes))
unfolding to_string to_byte_array
to_byte_array-to_string memory b pos small =
    let bytes = read memory b.address b.len in
    let long = length-read memory b.address b.len in
    let whole = from_data-owned bytes (omega (arith, long, pos)) in
    (
      bytes,
      long,
      ground (arith, small),
      subst (λ n. from_data bytes n ≡ some (owned bytes)) long whole,
    )

-- A buffer of 2 ^ 31 bytes or more: the byte_array still holds all its bytes, and the string throws.
pub to_string_long :
    (memory : ℕ → ℕ) (b : HeapBuffer)
    → 2 ^ 31 ≤ b.len
    → (to_string memory b ≡ none)
      × (to_byte_array memory b ≡ some (owned (read memory b.address b.len)))
unfolding to_string to_byte_array
to_string_long memory b large =
    let bytes = read memory b.address b.len in
    let long = length-read memory b.address b.len in
    let whole = from_data-owned bytes (omega (arith, long, large)) in
    (ground (arith, large), subst (λ n. from_data bytes n ≡ some (owned bytes)) long whole)
