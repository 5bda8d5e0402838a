-- ===== src/ByteArray/Reading.antt =====
-- byte_array.cpp, readAll, truncate and operator std::string.
use drumlin.Prelude.{
  ℕ, zero, suc, ◌+◌, ◌-◌, ◌*◌, ◌/◌, ◌≤◌, ◌<◌, ◌≡◌, refl, ◌∙◌, ◌⊎◌, Bool, true, false, none, some,
  [], ◌∷◌, ◌++◌, append-nil, append_assoc, arith, length, take, drop, take_all, take-add,
  length-take, length-drop, Bytes, nat_eq, bytes_eq,
}
use native.Mathlib.Decide.{dec_lt}
use drumlin.ByteArray.{append, empty_array, store, terminate, truncate, read_loop, read_all}

read_loop-take :
    (rounds : ℕ) (strm ss : Bytes)
    → length strm < rounds
    → read_loop rounds strm ss ≡ ss ++ take (length strm / 1024 * 1024) strm
unfolding read_loop
read_loop-take zero strm ss h = absurd (omega arith)
read_loop-take (suc rounds) strm ss h = elim (dec_lt (length strm) 1024) [
  | yes short ↦
      let none_full : length strm / 1024 * 1024 ≡ 0 = omega arith in
      rw (none_full, take_all 1024 strm (omega arith)) (ground (arith, append-nil ss))
  | no long ↦
      let rest = length (drop 1024 strm) in
      let shorter : rest ≡ length strm - 1024 = omega (arith, length-drop 1024 strm) in
      let blocks : length strm / 1024 * 1024 ≡ 1024 + rest / 1024 * 1024 = omega arith in
      rw (length-take 1024 strm (omega arith), blocks, take-add 1024 (rest / 1024 * 1024) strm)
        (read_loop-take rounds (drop 1024 strm) (ss ++ take 1024 strm) (omega arith)
          ∙ append_assoc ss (take 1024 strm) (take (rest / 1024 * 1024) (drop 1024 strm)))
]

append_to_empty :
    (s : Bytes)
    → 0 < length s
    → append empty_array s (length s)
      ≡ some (record { block = some s; size = length s; destroy = true })
unfolding append
append_to_empty s h = ground (arith, take_all (length s) s)

-- readAll keeps the blocks of 1024 bytes that are full and loses the rest of the stream.
read_all-take :
    (strm : Bytes)
    → 1024 ≤ length strm
    → read_all strm
      ≡ some (record {
        block = some (take (length strm / 1024 * 1024) strm);
        size = length strm / 1024 * 1024;
        destroy = true;
      })
unfolding read_all
read_all-take strm h =
    let kept = length strm / 1024 * 1024 in
    let size : length (take kept strm) ≡ kept = length-take kept strm (omega arith) in
    rw (
      read_loop-take (suc (length strm)) strm [] (omega arith),
      append_to_empty (take kept strm) (omega arith),
      size,
    )

store-lt :
    (xs : Bytes) (i v : ℕ) → i < length xs → store xs i v ≡ some (take i xs ++ v ∷ drop (suc i) xs)
unfolding store
store-lt [] i v h = absurd (omega arith)
store-lt (x ∷ xs) zero v h = refl
store-lt (x ∷ xs) (suc i) v h = rw (store-lt xs i v (omega arith))

store_past : (xs : Bytes) (i v : ℕ) → length xs ≤ i → store xs i v ≡ none
unfolding store
store_past [] i v h = refl
store_past (x ∷ xs) zero v h = absurd (omega arith)
store_past (x ∷ xs) (suc i) v h = rw (store_past xs i v (omega arith))

-- truncate of an owned array, at a length below its size: the bytes before the cut are kept, a 0
-- follows them, and the size is the length.
pub truncate_owned :
    (bytes : Bytes) (n len : ℕ)
    → len < n
    → n ≤ length bytes
    → truncate (record { block = some bytes; size = n; destroy = true }) len
      ≡ some (record {
        block = some (take len bytes ++ 0 ∷ drop (suc len) bytes);
        size = len;
        destroy = true;
      })
unfolding truncate terminate
truncate_owned bytes n len h k = ground (arith, store-lt bytes len 0)

-- At its own size truncate writes one byte past the memory of an array that fills it, and a borrowed
-- array cannot be cut at all.
pub truncate_undefined :
    (bytes : Bytes) (len : ℕ) (own : Bool)
    → 0 < len
    → len ≤ length bytes
    → (own ≡ false) ⊎ (len ≡ length bytes)
    → truncate (record { block = some bytes; size = length bytes; destroy = own }) len ≡ none
unfolding truncate terminate append
truncate_undefined bytes len own p h c = ground (arith, store_past bytes len 0)
