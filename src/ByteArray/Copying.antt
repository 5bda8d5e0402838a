-- ===== src/ByteArray/Copying.antt =====
-- byte_array.cpp, operator=, the copy constructor, operator+= and operator+.
use drumlin.Prelude.{ℕ, zero, suc, ◌<◌, ◌≡◌, refl, Option, none, some, arith, nat_eq, bytes_eq}
use drumlin.ByteArray.{
  ByteArray, ◌>>=◌, assign, copy_construct, add_assign, append, clear, bytes_of, plus, of_owner,
  to_std_string, empty_array,
}

bind_none {ℓ κ} :
    {A : Type ℓ} {B : Type κ} (o : Option A) (f : A → Option B)
    → ((a : A) → f a ≡ none)
    → (o >>= f) ≡ none
bind_none none f h = refl
bind_none (some a) f h = h a

mutual
  unfolding assign copy_construct

  assign-none : (depth : ℕ) (b rhs : ByteArray) → assign depth b rhs ≡ none
  assign-none zero b rhs = refl
  assign-none (suc depth) b rhs =
      bind_none (append (clear b) (bytes_of rhs) rhs.size) _
        λ self. rw (copy_construct-none depth self)

  copy_construct-none : (depth : ℕ) (rhs : ByteArray) → copy_construct depth rhs ≡ none
  copy_construct-none zero rhs = refl
  copy_construct-none (suc depth) rhs = assign-none depth empty_array rhs

add_assign-none : (depth : ℕ) (b pc : ByteArray) → add_assign depth b pc ≡ none
unfolding add_assign
add_assign-none depth b pc =
    bind_none (append b (bytes_of pc) pc.size) _ λ self. rw (copy_construct-none depth self)

-- No copy of a byte_array is ever made: at every depth of calls, copy construction, assignment and
-- operator+= are still calling one another.
copy_never_returns :
    (depth : ℕ) (b rhs : ByteArray)
    → (copy_construct depth rhs ≡ none)
      × (assign depth b rhs ≡ none)
      × (add_assign depth b rhs ≡ none)
copy_never_returns depth b rhs =
    (copy_construct-none depth rhs, assign-none depth b rhs, add_assign-none depth b rhs)

-- operator+ with an operand that is not empty is undefined for every left operand: the borrowed copy
-- of the left side has no place that append could extend.
pub plus_undefined : (b pc : ByteArray) → 0 < pc.size → plus b pc ≡ none
unfolding plus append of_owner
plus_undefined b pc h = bind_none (to_std_string b) _ λ owner. ground arith
