-- ===== src/ByteArray.antt =====
-- byte_array.h and byte_array.cpp: an owned or borrowed block of bytes with a length.
-- `block` is the memory at m_data as far as it was allocated, and `none` stands for a null pointer.
-- The result `none` of an operation stands for undefined behaviour or for a call that does not
-- return. malloc and realloc are taken to succeed, and a local variable is returned without a copy.
pub mod Copying
pub mod Strings
pub mod Reading
mod Tests
use drumlin.Prelude.{
  ℕ, zero, suc, ◌+◌, Bool, true, false, not, ◌||◌, Option, none, some, [], ◌∷◌, ◌++◌, map, ltb, leb,
  ◌==◌, if◌then◌else◌, length, take, drop, Bytes, nat_eq, bytes_eq,
}
use mathlib.Core.Option
use drumlin.StringList.{StringList, push_back}

pub record ByteArray : Type 0 where
  pub block : Option Bytes
  pub size : ℕ
  pub destroy : Bool

infixl 5 ◌>>=◌
abbrev pub ◌>>=◌ {ℓ κ} : {A : Type ℓ} {B : Type κ} → Option A → (A → Option B) → Option B
none >>= f = none
some a >>= f = f a

-- The default constructor.
abbrev pub empty_array : ByteArray
empty_array = record { block = none; size = 0; destroy = false }

-- The constructor from a string, which borrows its characters and the final 0.
pub of_owner : Bytes → ByteArray
of_owner owner = record { block = some (owner ++ 0 ∷ []); size = length owner + 1; destroy = false }

-- clear
pub clear : ByteArray → ByteArray
clear b = record {
  block = none;
  size = 0;
  destroy = elim b.block [ some _ ↦ false | none ↦ b.destroy ];
}

-- empty
unfoldable is_empty : ByteArray → Bool
is_empty b = elim b.block [ none ↦ b.size == 0 | some _ ↦ false ]

-- The copy of append(const void*, size_t): `old` is what realloc keeps, or nothing after malloc.
pub move_behind : ByteArray → Bytes → Bytes → ℕ → Option ByteArray
move_behind b old next len =
    if ltb (length old) b.size || ltb (length next) len
    then none
    else some (record {
      block = some (take b.size old ++ take len next);
      size = b.size + len;
      destroy = true;
    })

-- append(const void*, size_t). A borrowed block leaves `pdest` without a value.
pub append : ByteArray → Bytes → ℕ → Option ByteArray
unfolding move_behind
append b next len = if len == 0 then some b else elim b.block [
  | none ↦ move_behind b [] next len
  | some bytes ↦ if b.destroy then move_behind b bytes next len else none
]

-- append(std::string const&)
pub append_string : ByteArray → Bytes → Option ByteArray
append_string b str = append b (str ++ 0 ∷ []) (length str + 1)

-- fromData(const char*, size_t, size_t), which takes one byte more than it is asked for.
unfoldable from_data_range : Bytes → ℕ → ℕ → Option ByteArray
from_data_range pc start len = append empty_array (drop start pc) (len + 1)

-- fromData(void*, size_t)
unfoldable pub from_data : Bytes → ℕ → Option ByteArray
from_data mem len = append empty_array mem len

-- fromData(std::string)
pub from_string : Bytes → Option ByteArray
from_string str = append empty_array (str ++ 0 ∷ []) (length str + 1)

abbrev bytes_of : ByteArray → Bytes
bytes_of b = elim b.block [ none ↦ [] | some bytes ↦ bytes ]

-- operator=(const byte_array&) returns a copy of `*this`, and the copy constructor calls operator=.
-- The first argument bounds the depth of these calls.
mutual
  pub assign : ℕ → ByteArray → ByteArray → Option ByteArray
  assign zero b rhs = none
  assign (suc depth) b rhs = do
    self ← append (clear b) (bytes_of rhs) rhs.size
    returned ← copy_construct depth self
    some self

  pub copy_construct : ℕ → ByteArray → Option ByteArray
  copy_construct zero rhs = none
  copy_construct (suc depth) rhs = assign depth empty_array rhs

-- operator+=, whose value is a copy of `*this` too.
pub add_assign : ℕ → ByteArray → ByteArray → Option ByteArray
unfolding assign
add_assign depth b pc = do
  self ← append b (bytes_of pc) pc.size
  returned ← copy_construct depth self
  some self

-- The characters of a C string, up to its final 0; `none` is a read past the memory.
pub c_string : Bytes → Option Bytes
c_string [] = none
c_string (c ∷ s) =
    let rest = Option.map (λ t. c ∷ t) (c_string s) in if c == 0 then some [] else rest

-- operator std::string
pub to_std_string : ByteArray → Option Bytes
unfolding c_string
to_std_string b = if b.size == 0 then some [] else Option.map (take b.size) (c_string (bytes_of b))

-- operator+: `*this` is const, so that `tmp` is made from operator std::string, as a borrower.
pub plus : ByteArray → ByteArray → Option ByteArray
unfolding to_std_string append of_owner
plus b pc = do owner ← to_std_string b; append (of_owner owner) (bytes_of pc) pc.size

-- `p[i] = v`; a write past the memory is undefined.
pub store : Bytes → ℕ → ℕ → Option Bytes
store [] i v = none
store (x ∷ xs) zero v = some (v ∷ xs)
store (x ∷ xs) (suc i) v = Option.map (λ ys. x ∷ ys) (store xs i v)

terminate : ByteArray → ℕ → Option ByteArray
unfolding store
terminate b len = do
  bytes ← store (bytes_of b) len 0
  some (record { block = some bytes; size = len; destroy = b.destroy })

-- truncate
pub truncate : ByteArray → ℕ → Option ByteArray
unfolding terminate append
truncate b len = elim b.block [
  | none ↦ some b
  | some bytes ↦
      if not (leb len b.size)
      then some b
      else do owned ← if b.destroy then some b else append b bytes len; terminate owned len
]

-- The loop of operator string_list, from the position `pos`; each round moves on.
strings_loop : ℕ → Bytes → ℕ → ℕ → StringList → Option StringList
unfolding c_string
strings_loop zero bytes pos len list = none
strings_loop (suc rounds) bytes pos len list = elim (ltb pos len) [
  | false ↦ some list
  | true ↦ c_string (drop pos bytes) >>= λ s.
      strings_loop rounds bytes (pos + (length s + 1)) len (push_back list s)
]

-- operator string_list
pub to_string_list : ByteArray → Option StringList
unfolding strings_loop push_back
to_string_list b = strings_loop (suc b.size) (bytes_of b) 0 b.size []

-- The loop of readAll over what the stream has buffered: readsome takes 1024 bytes at most.
read_loop : ℕ → Bytes → Bytes → Bytes
read_loop zero strm ss = ss
read_loop (suc rounds) strm ss =
    let pc = take 1024 strm in
    let more = read_loop rounds (drop 1024 strm) (ss ++ pc) in
    if length pc == 1024 then more else ss

-- readAll
pub read_all : Bytes → Option ByteArray
read_all strm = let ss = read_loop (suc (length strm)) strm [] in append empty_array ss (length ss)
