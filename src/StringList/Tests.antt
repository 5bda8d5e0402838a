-- ===== src/StringList/Tests.antt =====
-- Concrete runs of the theorems of string_list.
use drumlin.Prelude.{ℕ, ◌≡◌, ◌≢◌, none, some, arith, Bytes, codes, nat_eq, bytes_eq}
use drumlin.StringList.Splitting.{replace_delimiters, find_parts, replace_delimiters_ends}

abbrev delimiter : ℕ
delimiter = b','

not_first : delimiter ≢ 194
not_first h = absurd (omega (arith, h))

not_second : delimiter ≢ 172
not_second h = absurd (omega (arith, h))

replace_delimiters_ends_example :
    (left : Bytes) × (replace_delimiters 3 (codes ", ") (codes "a, b, c") ≡ some left)
    × (find_parts (codes ", ") left ≡ none)
replace_delimiters_ends_example =
    replace_delimiters_ends 3 delimiter (codes " ") (codes "a, b, c") not_first not_second
      (omega arith)
