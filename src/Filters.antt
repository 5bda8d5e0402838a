-- ===== src/Filters.antt =====
-- use_ident.h and use_ident.cpp, UseIdentFilter and the classes that derive from it.
-- A class is a constructor, and its virtual operator== is `matches`. Where the source stores or passes
-- a UseIdentFilter by value, only the base part arrives: that copy is `slice`. `unset` is the address
-- that a default UseIdent finds in its memory, and sha256 comes from a library.
pub mod Slicing
pub mod Matching
use drumlin.Prelude.{
  ℕ, Bool, true, false, not, ◌&&◌, ◌||◌, [], ltb, leb, if◌then◌else◌, Bytes, eq_bytes, nat_eq,
  bytes_eq,
}
use drumlin.StringList.{StringList, eq_list, names_only}
use drumlin.UseIdent.{UseIdent, default_ident, get_hash}

-- The class UseIdentFilter.
pub record UseIdentFilter : Type 0 where
  pub ident : UseIdent

-- An object of UseIdentFilter or of a class derived from it.
pub data Filter : Type 0 where
  base : UseIdentFilter → Filter
  logical_and logical_or : UseIdentFilter → UseIdentFilter → UseIdentFilter → Filter
  logical_not : UseIdentFilter → UseIdentFilter → Filter
  sources_only hash_only : UseIdentFilter → Filter
  names : UseIdentFilter → StringList → Bool → Filter
  tick_range : UseIdentFilter → Bool → ℕ → ℕ → Filter

-- The copy constructor UseIdentFilter(UseIdentFilter const&), applied to any of the classes.
pub slice : Filter → UseIdentFilter
slice (base f) = f
slice (logical_and f lhs rhs) = f
slice (logical_or f lhs rhs) = f
slice (logical_not f rhs) = f
slice (sources_only f) = f
slice (hash_only f) = f
slice (names f list strict) = f
slice (tick_range f exc min max) = f

-- UseIdentFilter::operator==
unfoldable pub matches_base : UseIdentFilter → UseIdent → Bool
matches_base f rhs = false

-- UseIdentFilter(UseIdent&), SourcesOnly, HashOnly and NamesOnly of an identity.
of_ident : UseIdent → UseIdentFilter
of_ident ident = record { ident = ident }

unfoldable pub sources_only_of : UseIdent → Filter
unfolding of_ident
sources_only_of ident = sources_only (of_ident ident)

pub hash_only_of : UseIdent → Filter
unfolding of_ident
hash_only_of ident = hash_only (of_ident ident)

pub names_of_ident : UseIdent → Filter
unfolding of_ident
names_of_ident ident = names (of_ident ident) [] false

module _ (unset : ℕ) where
  default_filter : UseIdentFilter
  default_filter = record { ident = default_ident unset }

  -- NamesOnly(string_list&)
  unfoldable pub names_of_list : StringList → Filter
  unfolding default_filter
  names_of_list list = names default_filter list false

  -- TickRange(min, max)
  pub tick_range_of : ℕ → ℕ → Filter
  unfolding default_filter
  tick_range_of min max = tick_range default_filter false min max

  -- operator&&, with the constructor of LogicalAndFilter
  pub conjunction : Filter → Filter → Filter
  unfolding default_filter slice
  conjunction lhs rhs = logical_and default_filter (slice lhs) (slice rhs)

  -- operator||, with the constructor of LogicalOrFilter
  pub disjunction : Filter → Filter → Filter
  unfolding default_filter slice
  disjunction lhs rhs = logical_or default_filter (slice lhs) (slice rhs)

  -- operator!, with the constructor of LogicalNotFilter
  pub negation : Filter → Filter
  unfolding default_filter slice
  negation rhs = logical_not default_filter (slice rhs)

-- NamesOnly::strict
pub strict : Filter → Filter
strict (names f list s) = names f list true
strict f = f

-- TickRange::exclusive
pub exclusive : Filter → Filter
exclusive (tick_range f exc min max) = tick_range f true min max
exclusive f = f

-- NamesOnly::operator==
matches_names : UseIdent → StringList → Bool → UseIdent → Bool
matches_names ident list s rhs =
    if eq_list list []
    then eq_list (names_only s ident.specification) (names_only s rhs.specification)
    else eq_list (names_only s list) (names_only s rhs.specification)

-- TickRange::operator==
matches_ticks : Bool → ℕ → ℕ → UseIdent → Bool
matches_ticks exc min max rhs =
    if exc then ltb min rhs.tick && ltb rhs.tick max else leb min rhs.tick && leb rhs.tick max

module _ (sha256 : Bytes → Bytes) where
  -- operator== of the dynamic class.
  pub matches : Filter → UseIdent → Bool
  unfolding matches_base matches_names matches_ticks get_hash
  matches (base f) rhs = matches_base f rhs
  matches (logical_and f l r) rhs = matches_base l rhs && matches_base r rhs
  matches (logical_or f l r) rhs = matches_base l rhs || matches_base r rhs
  matches (logical_not f r) rhs = not (matches_base r rhs)
  matches (sources_only f) rhs = eq_bytes f.ident.source_name rhs.source_name
  matches (hash_only f) rhs = eq_bytes (get_hash sha256 f.ident) (get_hash sha256 rhs)
  matches (names f list s) rhs = matches_names f.ident list s rhs
  matches (tick_range f exc min max) rhs = matches_ticks exc min max rhs
