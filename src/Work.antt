-- ===== src/Work.antt =====
-- work.h and work.cpp: the tokens of work and the objects that they lead to. Objects are shared, so
-- they stand at addresses in the memory `descriptors`, which holds the one member that is written,
-- m_descriptors. `pointer` is the address of a new object, `before` the order of an unordered
-- map, and none is the exception. next has no body in the program.
pub mod Sharing
pub mod Promises
use drumlin.Prelude.{
  ℕ, ◌+◌, ◌%◌, ◌^◌, ◌≡◌, ◌↔◌, Bool, true, ◌&&◌, Option, none, some, List, [], ◌∷◌, ◌++◌, arith,
  ◌==◌, if◌then◌else◌, ==_iff, Bytes, eq_bytes, eq_bytes_iff, before, Eq, nat_eq, bytes_eq, lookup,
  place, insert,
}

pub record Token : Type 0 where
  pub target : Bytes
  pub uuid : ℕ
  pub part : ℕ

-- Token::operator==
pub equals : Token → Token → Bool
equals self rhs =
    eq_bytes self.target rhs.target && (self.uuid == rhs.uuid && self.part == rhs.part)

pub equals_iff : (a b : Token) → (equals a b ≡ true) ↔ (a ≡ b)
unfolding equals
equals_iff a b =
    ground (arith, eq_bytes_iff a.target b.target, ==_iff a.uuid b.uuid, ==_iff a.part b.part)

instance abbrev pub token_eq : Eq Token
token_eq = record { beq = equals; beq_iff = equals_iff }

-- clone; the part has 64 bits.
unfoldable pub clone : Token → Token
clone t = record t { part = (t.part + 1) % 2 ^ 64 }

pub record Store : Type 0 where
  pub work_map : List (Token × ℕ)
  pub work_queue : List Token
  pub descriptors : ℕ → List Bytes

pub record Access : Type 0 where
  pub token : Token
  pub object : ℕ

-- setWork past its test: a new object, which has no descriptor, and its token.
pub push_work : (Token → Token → Bool) → Token → ℕ → Store → Store
unfolding insert
push_work before token pointer store = record {
  work_map = insert before token pointer store.work_map;
  work_queue = store.work_queue ++ token ∷ [];
  descriptors = λ q. if q == pointer then [] else store.descriptors q;
}

-- Store::setWork
pub set_work : (Token → Token → Bool) → Token → ℕ → Store → Option (Access × Store)
unfolding lookup push_work
set_work before token pointer store = elim (lookup token store.work_map) [
  | some _ ↦ none
  | none ↦ some (record { token = token; object = pointer }, push_work before token pointer store)
]

-- Store::getWork
pub get_work : Token → Store → Option Access
unfolding lookup
get_work token store = elim (lookup token store.work_map) [
  | none ↦ none
  | some object ↦ some (record { token = token; object = object })
]

-- Access::addDescriptor
pub add_descriptor : Access → Bytes → Store → Store
add_descriptor access descriptor store = record store {
  descriptors = λ q.
      if q == access.object then store.descriptors q ++ descriptor ∷ [] else store.descriptors q;
}

-- Promises::queuePromise
pub queue_promise :
    (Bytes → Bytes → Bool) → Bytes → ℕ → List (Bytes × ℕ) → Option (List (Bytes × ℕ))
unfolding lookup place
queue_promise before name promise promises = elim (lookup name promises) [
  | some _ ↦ none
  | none ↦ some (place before name promise promises)
]

-- Application::queuePromise, which Access::queuePromise calls.
pub queue_promise_in_application :
    (Bytes → Bytes → Bool) → Bytes → ℕ → List (Bytes × ℕ) → List (Bytes × ℕ)
unfolding insert
queue_promise_in_application before name promise promises = insert before name promise promises
