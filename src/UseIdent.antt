-- ===== src/UseIdent.antt =====
-- use_ident.h and use_ident.cpp, UseIdent: who a heap or a buffer belongs to.
-- A source is the address of a UsesAllocator, `sources` is the memory that holds them, and the
-- default constructor leaves the address as it finds it. sha256 comes from a library.
pub mod Attributes
pub mod Order
use drumlin.Prelude.{
  ℕ, Bool, ◌&&◌, [], ltb, ◌==◌, length, take, some_of, Bytes, eq_bytes, find_from, nat_eq, bytes_eq,
}
use drumlin.StringList.{StringList, eq_list, push_pair, to_string, AttributeList}
use drumlin.StringList.Attributes.{push_pairs}
use drumlin.UsesAllocator.{UsesAllocator}

pub record UseIdent : Type 0 where
  pub source : ℕ
  pub source_name : Bytes
  pub specification : StringList
  pub tick : ℕ

-- UseIdent::UseIdent()
unfoldable pub default_ident : ℕ → UseIdent
default_ident source = record { source = source; source_name = []; specification = []; tick = 0 }

module _ (sources : ℕ → UsesAllocator) where
  -- UseIdent::UseIdent(UsesAllocator*)
  unfoldable pub of_source : ℕ → UseIdent
  of_source source = record {
    source = source;
    source_name = (sources source).token;
    specification = [];
    tick = 0;
  }

  -- setUse
  unfoldable set_use : UseIdent → ℕ → UseIdent
  set_use ident uses = record ident { source = uses; source_name = (sources uses).token }

-- withAttr, a loop of operator<<.
pub with_attr : UseIdent → AttributeList → UseIdent
unfolding push_pairs push_pair
with_attr ident attributes = record ident {
  specification = push_pairs ident.specification attributes;
}

-- withTick
unfoldable with_tick : UseIdent → ℕ → UseIdent
with_tick ident tick = record ident { tick = tick }

-- getHash
unfoldable pub get_hash : (Bytes → Bytes) → UseIdent → Bytes
get_hash sha256 ident = sha256 (to_string ident.specification)

-- hasComponent
pub has_component : UseIdent → Bytes → Bool
has_component ident name =
    some_of (λ attribute. eq_bytes name (take (find_from 0 b'=' attribute) attribute))
      ident.specification

-- operator=(const UseIdent&)
pub assign : UseIdent → UseIdent → UseIdent
assign self rhs = record {
  source = rhs.source;
  source_name = rhs.source_name;
  specification = rhs.specification;
  tick = rhs.tick;
}

-- operator=(UseIdent&&), which swaps: the new values of both objects.
unfoldable move_assign : UseIdent → UseIdent → UseIdent × UseIdent
move_assign self rhs = (rhs, self)

-- operator<
pub less : UseIdent → UseIdent → Bool
less lhs rhs =
    ltb lhs.source rhs.source
    && (ltb lhs.tick rhs.tick && ltb (length lhs.specification) (length rhs.specification))

-- operator==, in both forms: the right operand is const, so the lists are compared item by item.
unfoldable pub equals : UseIdent → UseIdent → Bool
equals lhs rhs =
    lhs.source == rhs.source
    && (lhs.tick == rhs.tick && eq_list lhs.specification rhs.specification)

-- std::hash of a UseIdent: boost's combination of the hashes of its four parts.
pub hash : (ℕ → Bytes → Bytes → ℕ → ℕ) → UseIdent → ℕ
hash combine s = combine s.source s.source_name (to_string s.specification) s.tick
