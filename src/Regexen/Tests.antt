-- ===== src/Regexen/Tests.antt =====
-- The match and the replacements of tests/test/regexes.h, and captures that are nested.
use drumlin.Prelude.{◌≡◌, refl, some, List, [], ◌∷◌, arith, codes, nat_eq, bytes_eq}
use drumlin.Regexen.{Capture, capture, replace, replace_loop, replace_end}
use drumlin.Regexen.Splicing.{Segment, captures_of}
use drumlin.Regexen.Replacing.{places_of, as_captured, whole, replace_splices, replace-capture}

abbrev bracketed : List Segment
bracketed =
    record { gap = codes "["; matched = codes "0"; text = codes "1" }
    ∷ record { gap = codes "]"; matched = codes "="; text = codes "<>" }
    ∷ record { gap = []; matched = codes "blargle"; text = codes "argle" }
    ∷ []

abbrev no_match : Capture
no_match = (record { position = 0; length = 0 }, [])

replace_splices_example :
    replace
      (record { haystack = codes "[0]=blargle"; captures = no_match ∷ captures_of 0 bracketed })
    ≡ some (codes "[1]<>argle")
replace_splices_example = replace_splices bracketed [] no_match (omega arith)

replace-capture_example :
    let h = codes "[0]=blargle" in
    let (impl, counted) =
      capture (whole h ∷ places_of 0 bracketed) (record { haystack = h; captures = [] }) in
    (impl.captures ≡ (whole h, h) ∷ captures_of 0 (as_captured bracketed))
    × (counted ≡ some 4)
    × (replace impl ≡ some h)
replace-capture_example = replace-capture bracketed [] (omega arith)

-- A capture within another is put behind it once more.
nested :
    replace (record {
      haystack = codes "ab";
      captures =
          no_match
          ∷ (record { position = 0; length = 2 }, codes "ab")
          ∷ (record { position = 1; length = 1 }, codes "b")
          ∷ [];
    })
    ≡ some (codes "abb")
unfolding replace replace_loop replace_end
nested = refl
