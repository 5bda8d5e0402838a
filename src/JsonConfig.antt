-- ===== src/JsonConfig.antt =====
-- jsonconfig.cpp and jsonconfig.h: the configurations that are kept by path, and the members of a JSON
-- object. tao::json is a parameter: the type `Value`, `parse`, which is `none` where from_string throws,
-- `print` for to_stream, and `members` and `of_members` for the map of an object, which another value
-- lacks. A configuration stands at an address; 0 is the null pointer, `deleted` records each `delete`
-- and `next` is the next address that `new` gives. `files` is what the files hold; a file that cannot
-- be read holds nothing. The std::set of paths is a list. The log is left out.
pub mod Loading
pub mod Entries
pub mod Caching
pub mod Reloading
pub mod Keys
mod Tests
use drumlin.Prelude.{
  ℕ, ◌+◌, Bool, true, false, not, Option, none, some, List, [], ◌∷◌, ◌++◌, ◌==◌, if◌then◌else◌,
  keep, some_of, Bytes, length, eq_bytes, nat_eq, bytes_eq, lt_bytes, lookup, insert,
}

pub record Configs (Value : Type 0) : Type 0 where
  pub files : Bytes → Option Bytes
  pub jsons : List (Bytes × ℕ)
  pub json_at : ℕ → Value
  pub deleted : List ℕ
  pub next : ℕ

-- What fromFile does: it throws where the text is no JSON, or it returns a pointer.
pub data Loaded (Value : Type 0) : Type 0 where
  thrown : Loaded Value
  returned : Configs Value → ℕ → Loaded Value

-- `getJsons().insert({path, p})`
abbrev pub cache : List (Bytes × ℕ) → Bytes → ℕ → List (Bytes × ℕ)
cache jsons path p = insert lt_bytes path p jsons

-- The first loop of reload, what it deletes.
pub delete_configs : List (Bytes × ℕ) → List ℕ → List ℕ
delete_configs [] deleted = deleted
delete_configs ((path, p) ∷ jsons) deleted =
    if not (p == 0) then delete_configs jsons (deleted ++ p ∷ []) else delete_configs jsons deleted

-- The first loop of reload, the paths of files that exist.
pub visible_paths : (Bytes → Option Bytes) → List (Bytes × ℕ) → List Bytes
visible_paths files [] = []
visible_paths files ((path, p) ∷ jsons) = elim (files path) [
  | none ↦ visible_paths files jsons
  | some text ↦ path ∷ visible_paths files jsons
]

abbrev pub is_in : Bytes → List Bytes → Bool
is_in path = some_of (λ p. eq_bytes p path)

module _ {Value : Type 0} (parse : Bytes → Option Value) where
  -- `new JsonConfig(...)`, cached.
  pub keep_new : Bytes → Value → Configs Value → Configs Value
  keep_new path value s = record s {
    jsons = cache s.jsons path s.next;
    json_at = λ p. if p == s.next then value else s.json_at p;
    next = s.next + 1;
  }

  pub load_text : Bytes → Option Value → Configs Value → Loaded Value
  unfolding keep_new
  load_text path none s = thrown
  load_text path (some value) s = returned (keep_new path value s) s.next

  pub load_file : Bytes → Option Bytes → Configs Value → Loaded Value
  unfolding load_text
  load_file path none s = returned s 0
  load_file path (some text) s = load_text path (parse text) s

  -- JsonConfig::fromFile
  pub from_file : Bytes → Configs Value → Loaded Value
  unfolding load_file
  from_file path s = elim (lookup path s.jsons) [
    | some p ↦ returned s p
    | none ↦ load_file path (s.files path) s
  ]

  -- The second and the third loop of reload, and whether they come to their end.
  pub load_all : List Bytes → Configs Value → Configs Value × Bool
  unfolding from_file
  load_all [] s = (s, true)
  load_all (li ∷ paths) s = elim (from_file li s) [
    | thrown ↦ (s, false)
    | returned after p ↦ load_all paths (record after { jsons = cache after.jsons li p })
  ]

  -- The first loop of reload, and the clear.
  pub drop_all : Configs Value → Configs Value
  unfolding delete_configs
  drop_all s = record s { jsons = []; deleted = delete_configs s.jsons s.deleted }

  -- JsonConfig::reload
  pub reload : List Bytes → Configs Value → Configs Value × Bool
  unfolding load_all drop_all visible_paths
  reload list s =
      let visible = visible_paths s.files s.jsons in
      let (kept, loaded) = load_all (keep (λ li. not (is_in li list)) visible) (drop_all s) in
      let (after, finished) = load_all list kept in
      if loaded then (after, finished) else (kept, false)

  -- json_map_clearer::~json_map_clearer
  unfoldable pub clear_all : Configs Value → Configs Value
  unfolding delete_configs
  clear_all s = record s { deleted = delete_configs s.jsons s.deleted; jsons = [] }

module _ {Value : Type 0} (print : Value → Bytes) (is_open : Bytes → Bool) where
  -- JsonConfig::save, by a path: only a file that exists is written.
  pub save : Bytes → Value → Configs Value → Configs Value
  save path value s = elim (s.files path) [
    | none ↦ s
    | some text ↦
        if not (is_open path)
        then s
        else record s { files = λ q. if eq_bytes q path then some (print value) else s.files q }
  ]

module _ {Value : Type 0} (members : Value → Option (List (Bytes × Value)))
    (of_members : List (Bytes × Value) → Value) where
  pub default_loop : List (Bytes × Value) → List (Bytes × Value) → List (Bytes × Value)
  default_loop [] obj = obj
  default_loop ((key, value) ∷ l) obj = elim (lookup key obj) [
    | none ↦ default_loop l (insert lt_bytes key value obj)
    | some old ↦ default_loop l obj
  ]

  -- JsonConfig::setDefaultValue; `none` for a value that is no object.
  pub set_default_value : Value → List (Bytes × Value) → Option Value
  unfolding default_loop
  set_default_value parent [] = some parent
  set_default_value parent ((key, value) ∷ rest) = elim (members parent) [
    | none ↦ none
    | some obj ↦ some (of_members (default_loop ((key, value) ∷ rest) obj))
  ]

  -- `map::insert` of several pairs.
  pub insert_all : List (Bytes × Value) → List (Bytes × Value) → List (Bytes × Value)
  insert_all [] obj = obj
  insert_all ((key, value) ∷ l) obj = insert_all l (insert lt_bytes key value obj)

  -- JsonConfig::setKey
  pub set_key : Value → List (Bytes × Value) → Option Value
  unfolding insert_all
  set_key json l = elim (members json) [
    | none ↦ none
    | some obj ↦ some (of_members (insert_all l obj))
  ]

  -- JsonConfig::getKey
  pub get_key : Value → Bytes → Option Value
  get_key json key = elim (members json) [ none ↦ none | some obj ↦ lookup key obj ]

-- object, array and length of jsonconfig.cpp. A null pointer is `none`, and the result is what then stands
-- behind the pointer that is returned. `fresh` is a new value, and `is_empty` is tao::json's empty.
module _ {Value : Type 0} (fresh : Value) (has_value : Value → Bool) where
  prepared : (Value → Value) → Option Value → Value
  prepared prepare none = if has_value fresh then fresh else prepare fresh
  prepared prepare (some value) = if has_value value then value else prepare value

  unfoldable object : (Value → Value) → Option Value → Value
  unfolding prepared
  object prepare_object obj = prepared prepare_object obj

  unfoldable array : (Value → Value) → Option Value → Value
  unfolding prepared
  array prepare_array value = prepared prepare_array value

module _ {Value : Type 0} (elements : Value → Option (List Value))
    (members : Value → Option (List (Bytes × Value))) (is_empty : Value → Bool) where
  unfoldable length_of : Value → ℕ
  length_of value = elim (elements value) [
    | some values ↦ length values
    | none ↦ elim (members value) [ some obj ↦ length obj | none ↦ if is_empty value then 0 else 1 ]
  ]
