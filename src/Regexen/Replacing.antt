-- ===== src/Regexen/Replacing.antt =====
-- replace on the captures of a match, and what capturing and substituting make of it.
use drumlin.Prelude.{
  ℕ, zero, suc, ◌+◌, ◌^◌, ◌<◌, ◌≡◌, refl, sym, ap, ◌∙◌, subst, Bool, true, none, some, List, [],
  ◌∷◌, ◌++◌, append-nil, append_assoc, arith, ltb, if◌then◌else◌, if_cases, length, take, drop,
  length-append, take-append, take_all, drop-append, Bytes, Lacks, before-Lacks, nat_eq, bytes_eq,
}
use drumlin.Regexen.{
  Replacement, Capture, IterateImpl, substr, capture_loop, capture, set_text, substitute, replace,
  replace_one,
}
use drumlin.Regexen.Splicing.{
  Segment, haystack_of, result_of, place_of, end_of, captures_of, substr-middle,
  replace_loop-splices,
}

-- The positions of the captures of the segments, which begin at a position.
abbrev pub places_of : ℕ → List Segment → List Replacement
places_of n [] = []
places_of n (s ∷ segments) = place_of n s ∷ places_of (end_of n s) segments

-- The segments with what was captured in its own place.
abbrev pub as_captured : List Segment → List Segment
as_captured [] = []
as_captured (s ∷ segments) = record s { text = s.matched } ∷ as_captured segments

-- In a text of fewer than 2 ^ 64 bytes, where the captures behind the first stand in order and do not
-- overlap, replace gives the text with each captured part replaced by the text in its place, and the
-- rest as it is.
pub replace_splices :
    (segments : List Segment) (tail : Bytes) (first : Capture)
    → length (haystack_of segments tail) < 2 ^ 64
    → replace
        (record { haystack = haystack_of segments tail; captures = first ∷ captures_of 0 segments })
      ≡ some (result_of segments tail)
unfolding replace
replace_splices segments tail first h = replace_loop-splices segments [] tail [] h

capture_loop_step :
    (h : Bytes) (done : List Capture) (r : Replacement) (cap : List Replacement) (text : Bytes)
    → substr h r.position r.length ≡ some text
    → capture_loop h done (r ∷ cap) ≡ capture_loop h (done ++ (r, text) ∷ []) cap
unfolding capture_loop
capture_loop_step h done r cap text e = rw (e, capture_loop)

capture_loop-segments :
    (segments : List Segment) (pre tail : Bytes) (done : List Capture)
    → capture_loop (pre ++ haystack_of segments tail) done (places_of (length pre) segments)
      ≡ (done ++ captures_of (length pre) (as_captured segments), true)
unfolding capture_loop
capture_loop-segments [] pre tail done = rw (append-nil done)
capture_loop-segments (s ∷ segments) pre tail done =
    let behind = haystack_of segments tail in
    let before_it = pre ++ s.gap in
    let past = before_it ++ s.matched in
    let start : length before_it ≡ length pre + length s.gap = length-append pre s.gap in
    let cut : pre ++ (s.gap ++ (s.matched ++ behind)) ≡ before_it ++ (s.matched ++ behind) =
      sym (append_assoc pre s.gap (s.matched ++ behind)) in
    let long : length past ≡ end_of (length pre) s =
      length-append before_it s.matched ∙ ap (λ n. n + length s.matched) start in
    let at : substr (pre ++ (s.gap ++ (s.matched ++ behind))) (length pre + length s.gap)
          (length s.matched)
        ≡ some s.matched =
      ap (λ t. substr t (length pre + length s.gap) (length s.matched)) cut
      ∙ ap (λ n. substr (before_it ++ (s.matched ++ behind)) n (length s.matched)) (sym start)
      ∙ substr-middle before_it s.matched behind in
    let taken = done ++ (place_of (length pre) s, s.matched) ∷ [] in
    capture_loop_step (pre ++ (s.gap ++ (s.matched ++ behind))) done (place_of (length pre) s)
      (places_of (end_of (length pre) s) segments) s.matched at
    ∙ ap (λ t. capture_loop t taken (places_of (end_of (length pre) s) segments))
        (cut ∙ sym (append_assoc before_it s.matched behind))
    ∙ ap (λ n. capture_loop (past ++ behind) taken (places_of n segments)) (sym long)
    ∙ capture_loop-segments segments past tail taken
    ∙ ap (λ (n : ℕ). (taken ++ captures_of n (as_captured segments), true)) long
    ∙ ap (λ (cs : List Capture). (cs, true)) (append_assoc done _ _)

result-as_captured :
    (segments : List Segment) (tail : Bytes)
    → result_of (as_captured segments) tail ≡ haystack_of segments tail
result-as_captured [] tail = refl
result-as_captured (s ∷ segments) tail =
    ap (λ t. s.gap ++ (s.matched ++ t)) (result-as_captured segments tail)

haystack-as_captured :
    (segments : List Segment) (tail : Bytes)
    → haystack_of (as_captured segments) tail ≡ haystack_of segments tail
haystack-as_captured [] tail = refl
haystack-as_captured (s ∷ segments) tail =
    ap (λ t. s.gap ++ (s.matched ++ t)) (haystack-as_captured segments tail)

whole_match : (h : Bytes) → substr h 0 (length h) ≡ some h
whole_match h =
    if_cases (λ o. o ≡ some h) (ltb (length h) 0) (λ e. absurd (ground (arith, e)))
      (λ e. ap (λ t. some t) (take_all (length h) h (omega arith)))

-- The place of a match of the whole text.
abbrev pub whole : Bytes → Replacement
whole h = record { position = 0; length = length h }

-- A match of a whole text, of fewer than 2 ^ 64 bytes, whose captures stand in order and do not overlap:
-- capturing finds each captured part and counts them with the match itself, and replace then gives the
-- text back.
pub replace-capture :
    (segments : List Segment) (tail : Bytes)
    → length (haystack_of segments tail) < 2 ^ 64
    → let h = haystack_of segments tail in
      let (impl, counted) =
        capture (whole h ∷ places_of 0 segments) (record { haystack = h; captures = [] }) in
      (impl.captures ≡ (whole h, h) ∷ captures_of 0 (as_captured segments))
      × (counted ≡ some (1 + length (places_of 0 segments)))
      × (replace impl ≡ some h)
unfolding capture
replace-capture segments tail h =
    let text = haystack_of segments tail in
    let found =
      capture_loop_step text [] (whole text) (places_of 0 segments) text (whole_match text)
      ∙ capture_loop-segments segments [] tail ((whole text, text) ∷ []) in
    let same = haystack-as_captured segments tail in
    let back =
      replace_splices (as_captured segments) tail (whole text, text)
        (omega (arith, h, ap length same)) in
    let cap = whole text ∷ places_of 0 segments in
    subst
      (λ (p : List Capture × Bool).
        (p.0 ≡ (whole text, text) ∷ captures_of 0 (as_captured segments))
        × ((if p.1 then some (length cap) else none) ≡ some (1 + length (places_of 0 segments)))
        × (replace (record { haystack = text; captures = p.0 }) ≡ some text))
      (sym found)
      (
        refl,
        ap (λ n. some n) (omega arith),
        ap
              (λ t. replace (record {
                haystack = t;
                captures = (whole text, text) ∷ captures_of 0 (as_captured segments);
              }))
              (sym same)
            ∙ back
            ∙ ap (λ t. some t) (result-as_captured segments tail),
      )

-- A text put in the place of the n-th segment.
abbrev pub with_text : ℕ → Bytes → List Segment → List Segment
with_text n text [] = []
with_text zero text (s ∷ segments) = record s { text = text } ∷ segments
with_text (suc n) text (s ∷ segments) = s ∷ with_text n text segments

set_text-captures :
    (n m : ℕ) (text : Bytes) (segments : List Segment)
    → n < length segments
    → set_text n text (captures_of m segments) ≡ some (captures_of m (with_text n text segments))
unfolding set_text
set_text-captures n m text [] h = absurd (omega arith)
set_text-captures zero m text (s ∷ segments) h = refl
set_text-captures (suc n) m text (s ∷ segments) h =
    rw (set_text-captures n (end_of m s) text segments (omega arith))

haystack-with_text :
    (n : ℕ) (text : Bytes) (segments : List Segment) (tail : Bytes)
    → haystack_of (with_text n text segments) tail ≡ haystack_of segments tail
haystack-with_text n text [] tail = refl
haystack-with_text zero text (s ∷ segments) tail = refl
haystack-with_text (suc n) text (s ∷ segments) tail =
    ap (λ t. s.gap ++ (s.matched ++ t)) (haystack-with_text n text segments tail)

-- After substitute on a capture behind the first, where the captures stand in order and do not overlap,
-- replace gives the text with that capture's new text, and the others as they were.
replace-substitute :
    (n : ℕ) (text : Bytes) (segments : List Segment) (tail : Bytes) (first : Capture)
    → n < length segments
    → length (haystack_of segments tail) < 2 ^ 64
    → (after : IterateImpl) × (substitute (suc n) text (record {
      haystack = haystack_of segments tail;
      captures = first ∷ captures_of 0 segments;
    })
        ≡ some after)
      × (replace after ≡ some (result_of (with_text n text segments) tail))
unfolding substitute set_text
replace-substitute n text segments tail first inside h =
    let changed = with_text n text segments in
    let after : IterateImpl = record {
      haystack = haystack_of segments tail;
      captures = first ∷ captures_of 0 changed;
    } in
    let same = haystack-with_text n text segments tail in
    (
      after,
      rw (set_text-captures n 0 text segments inside, substitute),
      ap (λ t. replace (record { haystack = t; captures = first ∷ captures_of 0 changed }))
            (sym same)
          ∙ replace_splices changed tail first (omega (arith, h, ap length same)),
    )

abbrev one_segment : Bytes → Bytes → Bytes → Segment
one_segment gap matched text = record { gap = gap; matched = matched; text = text }

-- In a text of fewer than 2 ^ 64 bytes with one capture, and no zero behind it, drumlin_regex's replace and
-- that of the captures give the same text, with the capture replaced, whatever the match as a whole was.
replace_one-replace :
    (gap matched text tail : Bytes) (first : Capture)
    → length (gap ++ (matched ++ tail)) < 2 ^ 64
    → Lacks 0 tail
    → let s = one_segment gap matched text in
      let h = gap ++ (matched ++ tail) in
      (replace_one h (place_of 0 s) text
        ≡ replace (record { haystack = h; captures = first ∷ captures_of 0 (s ∷ []) }))
      × (replace_one h (place_of 0 s) text ≡ some (gap ++ (text ++ tail)))
unfolding replace_one
replace_one-replace gap matched text tail first h lacks =
    let s = one_segment gap matched text in
    let r = gap ++ (matched ++ tail) in
    let at : 0 + length gap ≡ length gap = omega arith in
    let behind : drop (0 + length gap + length matched) r ≡ tail =
      ap (λ n. drop n r) (ap (λ n. n + length matched) at ∙ sym (length-append gap matched))
      ∙ ap (λ t. drop (length (gap ++ matched)) t) (sym (append_assoc gap matched tail))
      ∙ drop-append (gap ++ matched) tail in
    let ahead : take (0 + length gap) r ≡ gap =
      ap (λ n. take n r) at ∙ take-append gap (matched ++ tail) in
    let direct : replace_one r (place_of 0 s) text ≡ some (gap ++ (text ++ tail)) =
      if_cases (λ o. o ≡ some (gap ++ (text ++ tail)))
        (ltb (length r) ((place_of 0 s).position + (place_of 0 s).length))
        (λ e.
          absurd
            (ground (arith, e, length-append gap (matched ++ tail), length-append matched tail)))
        (λ e. rw (ahead, behind, before-Lacks 0 tail lacks)) in
    (direct ∙ sym (replace_splices (s ∷ []) tail first h), direct)
