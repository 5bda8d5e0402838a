-- ===== src/Buffers.antt =====
-- buffer.h and buffer.cpp, HeapBuffer: a number of bytes in a heap, with the identity that they belong to.
-- `memory` gives the byte at each address. The time of the clock is an argument.
pub mod Reading
use drumlin.Prelude.{
  ℕ, zero, suc, ◌+◌, ◌-◌, ◌%◌, ◌^◌, Bool, not, Option, none, some, [], ◌∷◌, ltb, ◌==◌,
  if◌then◌else◌, Bytes, nat_eq, bytes_eq,
}
use drumlin.ByteArray.{ByteArray, from_data}
use drumlin.UseIdent.{UseIdent}

pub record HeapBuffer : Type 0 where
  pub address : ℕ
  pub len : ℕ
  pub ident : UseIdent
  pub use_count : ℕ
  pub timestamp : ℕ

-- HeapBuffer::HeapBuffer, which keeps the lower 32 bits of a size.
unfoldable pub make_buffer : ℕ → ℕ → UseIdent → ℕ → HeapBuffer
make_buffer alloc sizeof use_ident now = record {
  address = alloc;
  len = sizeof % 2 ^ 32;
  ident = use_ident;
  use_count = 1;
  timestamp = now;
}

-- isValid
unfoldable is_valid : HeapBuffer → Bool
is_valid b = not (b.address == 0)

-- release, with its value.
unfoldable pub release : HeapBuffer → HeapBuffer × ℕ
release b =
    let count = (b.use_count + 2 ^ 32 - 1) % 2 ^ 32 in (record b { use_count = count }, count)

-- The bytes at an address.
pub read : (ℕ → ℕ) → ℕ → ℕ → Bytes
read memory address zero = []
read memory address (suc n) = memory address ∷ read memory (address + 1) n

-- operator byte_array
pub to_byte_array : (ℕ → ℕ) → HeapBuffer → Option ByteArray
unfolding read from_data
to_byte_array memory b = from_data (read memory b.address b.len) b.len

-- operator std::string. The length goes through an int, so that one of 2 ^ 31 bytes or more is negative,
-- and is then longer than any string: `none` is the exception.
pub to_string : (ℕ → ℕ) → HeapBuffer → Option Bytes
unfolding read
to_string memory b = if ltb b.len (2 ^ 31) then some (read memory b.address b.len) else none
