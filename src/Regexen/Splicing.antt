-- ===== src/Regexen/Splicing.antt =====
-- A text cut into segments, each a gap and a capture, with a tail: what replace makes of captures that
-- stand in order and do not overlap.
use drumlin.Prelude.{
  ℕ, ◌+◌, ◌%◌, ◌^◌, ◌<◌, ◌≡◌, refl, sym, ap, ◌∙◌, some, List, [], ◌∷◌, ◌++◌, append-nil,
  append_assoc, arith, ltb, if_cases, length, length-append, take-append, drop-append, Bytes,
  nat_eq, bytes_eq,
}
use drumlin.Regexen.{Replacement, Capture, substr, minus, replace_end, replace_loop}

-- A gap, the captured text behind it, and the text to stand in its place.
pub record Segment : Type 0 where
  pub gap : Bytes
  pub matched : Bytes
  pub text : Bytes

abbrev pub haystack_of : List Segment → Bytes → Bytes
haystack_of [] tail = tail
haystack_of (s ∷ segments) tail = s.gap ++ (s.matched ++ haystack_of segments tail)

abbrev pub result_of : List Segment → Bytes → Bytes
result_of [] tail = tail
result_of (s ∷ segments) tail = s.gap ++ (s.text ++ result_of segments tail)

abbrev pub place_of : ℕ → Segment → Replacement
place_of n s = record { position = n + length s.gap; length = length s.matched }

abbrev pub end_of : ℕ → Segment → ℕ
end_of n s = n + length s.gap + length s.matched

-- The captures of the segments, which begin at a position.
abbrev pub captures_of : ℕ → List Segment → List Capture
captures_of n [] = []
captures_of n (s ∷ segments) = (place_of n s, s.text) ∷ captures_of (end_of n s) segments

pub substr-middle :
    (pre mid post : Bytes) → substr (pre ++ (mid ++ post)) (length pre) (length mid) ≡ some mid
substr-middle pre mid post =
    if_cases (λ o. o ≡ some mid) (ltb (length (pre ++ (mid ++ post))) (length pre))
      (λ e. absurd (ground (arith, e, length-append pre (mid ++ post))))
      (λ e. rw (drop-append pre (mid ++ post), take-append mid post))

minus-add : (n k : ℕ) → n + k < 2 ^ 64 → minus (n + k) n ≡ k
minus-add n k h = omega arith

no_tail : (tail : Bytes) → length tail ≡ 0 → tail ≡ []
no_tail [] h = refl
no_tail (x ∷ tail) h = absurd (omega arith)

replace_end-tail :
    (pre tail ss : Bytes) → replace_end (pre ++ tail) (length pre) ss ≡ some (ss ++ tail)
unfolding replace_end
replace_end-tail pre tail ss =
    if_cases (λ o. o ≡ some (ss ++ tail)) (ltb (length pre) (length (pre ++ tail)))
      (λ e. rw (drop-append pre tail))
      (λ e.
        ap (λ t. some t)
          (sym (append-nil ss)
            ∙ ap (λ t. ss ++ t) (sym (no_tail tail (ground (arith, e, length-append pre tail))))))

-- One round of the loop, whose position and gap are known.
replace_loop_step :
    (h : Bytes) (captures : List Capture) (r : Replacement) (text : Bytes) (pos gap next : ℕ)
    (ss kept : Bytes)
    → minus r.position pos ≡ gap
    → substr h pos gap ≡ some kept
    → ((pos + gap) % 2 ^ 64 + r.length) % 2 ^ 64 ≡ next
    → replace_loop h ((r, text) ∷ captures) pos ss
      ≡ replace_loop h captures next (ss ++ kept ++ text)
unfolding replace_loop
replace_loop_step h captures r text pos gap next ss kept a b c =
    rw (a, b, replace_loop)
      (ap (λ n. replace_loop h captures n (ss ++ kept ++ text))
        (ap (λ g. ((pos + g) % 2 ^ 64 + r.length) % 2 ^ 64) a ∙ c))

pub replace_loop-splices :
    (segments : List Segment) (pre tail ss : Bytes)
    → length (pre ++ haystack_of segments tail) < 2 ^ 64
    → replace_loop
        (pre ++ haystack_of segments tail)
        (captures_of (length pre) segments)
        (length pre)
        ss
      ≡ some (ss ++ result_of segments tail)
unfolding replace_loop
replace_loop-splices [] pre tail ss h = replace_end-tail pre tail ss
replace_loop-splices (s ∷ segments) pre tail ss h =
    let behind = haystack_of segments tail in
    let past = pre ++ (s.gap ++ s.matched) in
    let cut : pre ++ (s.gap ++ (s.matched ++ behind)) ≡ past ++ behind =
      ap (λ t. pre ++ t) (sym (append_assoc s.gap s.matched behind))
      ∙ sym (append_assoc pre (s.gap ++ s.matched) behind) in
    let long : length past ≡ end_of (length pre) s =
      omega (arith, length-append pre (s.gap ++ s.matched), length-append s.gap s.matched) in
    let bound : length past + length behind < 2 ^ 64 =
      omega (arith, h, ap length cut, length-append past behind) in
    let rest =
      replace_loop-splices segments past tail ((ss ++ s.gap) ++ s.text)
        (omega (arith, h, ap length cut)) in
    let at = substr-middle pre s.gap (s.matched ++ behind) in
    replace_loop_step (pre ++ (s.gap ++ (s.matched ++ behind)))
      (captures_of (end_of (length pre) s) segments) (place_of (length pre) s) s.text (length pre)
      (length s.gap) (end_of (length pre) s) ss s.gap
      (minus-add (length pre) (length s.gap) (omega (arith, long, bound))) at
      (omega (arith, long, bound))
    ∙ ap
        (λ t.
          replace_loop t (captures_of (end_of (length pre) s) segments) (end_of (length pre) s)
            (ss ++ s.gap ++ s.text))
        cut
    ∙ ap (λ n. replace_loop (past ++ behind) (captures_of n segments) n (ss ++ s.gap ++ s.text))
        (sym long)
    ∙ rest
    ∙ ap (λ t. some t)
        (append_assoc (ss ++ s.gap) s.text (result_of segments tail)
          ∙ append_assoc ss s.gap (s.text ++ result_of segments tail))
