-- ===== src/JsonConfig/Tests.antt =====
-- Two files, one of which is missing; the value of a text is its first byte.
use drumlin.Prelude.{
  ◌++◌, keep, not, map, ◌==◌, ℕ, ◌≡◌, refl, ap, true, Option, none, some, List, [], ◌∷◌,
  if◌then◌else◌, All, Bytes, codes, eq_bytes, nat_eq, bytes_eq, lookup, place, insert,
}
use drumlin.JsonConfig.{
  Configs, returned, from_file, reload, set_key, set_default_value, get_key, keep_new, load_all,
  drop_all, visible_paths,
}
use drumlin.JsonConfig.Entries.{IsFresh}
use drumlin.JsonConfig.Reloading.{reload-IsFresh}
use drumlin.JsonConfig.Keys.{or_else, set_key-set_default_value}

abbrev first_byte : Bytes → Option ℕ
first_byte [] = none
first_byte (c ∷ text) = some c

abbrev two_files : Bytes → Option Bytes
two_files path = if eq_bytes path (codes "a") then some (codes "one") else none

abbrev start : Configs ℕ
start = record { files = two_files; jsons = []; json_at = λ p. 0; deleted = []; next = 1 }

abbrev loaded : Configs ℕ
loaded = keep_new first_byte (codes "a") 111 start

loads : from_file first_byte (codes "a") start ≡ returned loaded start.next
unfolding from_file lookup keep_new
loads = refl

abbrev listed : List Bytes
listed = codes "b" ∷ []

abbrev again : Configs ℕ
again = (reload first_byte listed loaded).0

reload-IsFresh_example :
    All (IsFresh first_byte loaded.next again) again.jsons
    × (again.deleted
        ≡ loaded.deleted ++ keep (λ p. not (p == 0)) (map (λ (e : Bytes × ℕ). e.1) loaded.jsons))
    × (again.files ≡ loaded.files)
reload-IsFresh_example = reload-IsFresh first_byte listed loaded

goes_through : (reload first_byte listed loaded).1 ≡ true
unfolding reload load_all drop_all visible_paths keep_new from_file lookup insert place
goes_through = refl

-- Documents of numbers and objects.
mutual
  data Doc : Type 0 where
    number : ℕ → Doc
    object : Entries → Doc

  data Entries : Type 0 where
    done : Entries
    entry : Bytes → Doc → Entries → Entries

abbrev to_entries : List (Bytes × Doc) → Entries
to_entries [] = done
to_entries ((key, doc) ∷ m) = entry key doc (to_entries m)

abbrev from_entries : Entries → List (Bytes × Doc)
from_entries done = []
from_entries (entry key doc m) = (key, doc) ∷ from_entries m

abbrev members_of_doc : Doc → Option (List (Bytes × Doc))
members_of_doc (number n) = none
members_of_doc (object m) = some (from_entries m)

abbrev doc_of : List (Bytes × Doc) → Doc
doc_of m = object (to_entries m)

from-to_entries : (m : List (Bytes × Doc)) → from_entries (to_entries m) ≡ m
from-to_entries [] = refl
from-to_entries ((key, doc) ∷ m) = rw (from-to_entries m)

abbrev held : List (Bytes × Doc)
held = (codes "a", number 1) ∷ []

abbrev more : List (Bytes × Doc)
more = (codes "a", number 2) ∷ (codes "b", number 3) ∷ []

set_key-set_default_value_example :
    (after : Doc) × (set_key members_of_doc doc_of (doc_of held) more ≡ some after)
    × (set_default_value members_of_doc doc_of (doc_of held) more ≡ some after)
    × ((key : Bytes)
        → get_key members_of_doc doc_of after key ≡ or_else (lookup key held) (lookup key more))
set_key-set_default_value_example =
    set_key-set_default_value members_of_doc doc_of (doc_of held) held more
      (λ m. ap (λ l. some l) (from-to_entries m)) refl (λ e. cc)
