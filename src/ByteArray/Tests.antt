-- ===== src/ByteArray/Tests.antt =====
-- Concrete runs of the theorems of byte_array.
use drumlin.Prelude.{◌≡◌, some, List, [], ◌∷◌, arith, All, Bytes, Lacks, nat_eq, bytes_eq}
use drumlin.ByteArray.{◌>>=◌, from_string, to_string_list}
use drumlin.ByteArray.Strings.{append_strings, to_string_list-append_strings}

abbrev text : Bytes
text = b'h' ∷ b'i' ∷ []

abbrev texts : List Bytes
texts = text ∷ text ∷ []

texts-Lacks : All (Lacks 0) (text ∷ texts)
texts-Lacks = (text-Lacks, (text-Lacks, (text-Lacks, tt)))
  where
    text-Lacks : Lacks 0 text
    text-Lacks = (λ e. absurd (omega (arith, e)), (λ e. absurd (omega (arith, e)), tt))

to_string_list-append_strings_example :
    (from_string text >>= λ b. append_strings b texts >>= λ full. to_string_list full)
    ≡ some (text ∷ texts)
to_string_list-append_strings_example = to_string_list-append_strings text texts texts-Lacks
