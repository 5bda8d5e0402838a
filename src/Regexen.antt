-- ===== src/Regexen.antt =====
-- regexen.h: the captures of a match, the texts put in their place, and the text with them. A capture
-- is a sub-expression's position and length, as boost's match_results gives them: one that took no
-- part in the match has the position npos and the length 0. The search itself is the parameter
-- `engine`. Positions are machine words of 64 bits.
pub mod Splicing
pub mod Replacing
mod Tests
use drumlin.Prelude.{
  ℕ, zero, suc, ◌+◌, ◌-◌, ◌%◌, ◌^◌, subst, Bool, true, false, Option, none, some, List, [], ◌∷◌,
  ◌++◌, ltb, if◌then◌else◌, length, take, drop, Bytes, before, nat_eq, bytes_eq,
}

-- `s.substr(pos, n)`, which throws beyond the end.
abbrev pub substr : Bytes → ℕ → ℕ → Option Bytes
substr s pos n = if ltb (length s) pos then none else some (take n (drop pos s))

pub record Replacement : Type 0 where
  pub position : ℕ
  pub length : ℕ

-- A capture, and the text in its place.
abbrev pub Capture : Type 0
Capture = Replacement × Bytes

pub record IterateImpl : Type 0 where
  pub haystack : Bytes
  pub captures : List Capture

-- The loop of operator(): the captures it leaves, and whether it came to its end.
pub capture_loop : Bytes → List Capture → List Replacement → List Capture × Bool
capture_loop haystack captures [] = (captures, true)
capture_loop haystack captures (r ∷ cap) =
    let more = λ (text : Bytes). capture_loop haystack (captures ++ (r, text) ∷ []) cap in
    elim (substr haystack r.position r.length) [ none ↦ (captures, false) | some text ↦ more text ]

-- iterate_impl::operator(), which returns the number of captures; `none` where it throws.
unfoldable pub capture : List Replacement → IterateImpl → IterateImpl × Option ℕ
unfolding capture_loop
capture cap impl =
    let (captures, finished) = capture_loop impl.haystack impl.captures cap in
    (record impl { captures = captures }, if finished then some (length cap) else none)

-- iterate_impl::length
unfoldable pub count : IterateImpl → ℕ
count impl = length impl.captures

pub set_text : ℕ → Bytes → List Capture → Option (List Capture)
set_text n text [] = none
set_text zero text ((r, old) ∷ captures) = some ((r, text) ∷ captures)
set_text (suc n) text (c ∷ captures) = elim (set_text n text captures) [
  | none ↦ none
  | some changed ↦ some (c ∷ changed)
]

-- iterate_impl::substitute; an index out of range is undefined.
unfoldable pub substitute : ℕ → Bytes → IterateImpl → Option IterateImpl
unfolding set_text
substitute n subst impl = elim (set_text n subst impl.captures) [
  | none ↦ none
  | some changed ↦ some (record impl { captures = changed })
]

-- The difference of two positions, as a size_t.
abbrev pub minus : ℕ → ℕ → ℕ
minus a b = (a + 2 ^ 64 - b) % 2 ^ 64

-- The end of replace.
pub replace_end : Bytes → ℕ → Bytes → Option Bytes
replace_end haystack pos ss =
    if ltb pos (length haystack) then some (ss ++ drop pos haystack) else some ss

-- The loop of replace.
pub replace_loop : Bytes → List Capture → ℕ → Bytes → Option Bytes
unfolding replace_end
replace_loop haystack [] pos ss = replace_end haystack pos ss
replace_loop haystack ((r, text) ∷ captures) pos ss =
    let gap = minus r.position pos in
    let next = ((pos + gap) % 2 ^ 64 + r.length) % 2 ^ 64 in
    let more = λ (kept : Bytes). replace_loop haystack captures next (ss ++ kept ++ text) in
    elim (substr haystack pos gap) [ none ↦ none | some kept ↦ more kept ]

-- iterate_impl::replace, which leaves the first capture, the whole match, out.
unfoldable pub replace : IterateImpl → Option Bytes
unfolding replace_loop
replace impl = replace_loop impl.haystack (drop 1 impl.captures) 0 []

-- drumlin_regex, with its last captures and what it makes of them.
pub record Regex : Type 0 where
  pub cap : List Replacement
  pub impl : Option IterateImpl

module _ (engine : Bytes → Bool × List Replacement) where
  -- drumlin_regex::match and drumlin_regex::search; the result is `none` where capture throws.
  unfoldable pub search : Bytes → Regex → Regex × Option Bool
  unfolding capture
  search haystack regex =
      let (found, cap) = engine haystack in
      let (impl, counted) = capture cap (record { haystack = haystack; captures = [] }) in
      if found
      then (
        record { cap = cap; impl = some impl },
        elim counted [ none ↦ none | some n ↦ some true ],
      )
      else (record regex { cap = cap }, some false)

-- drumlin_regex::replace: a pointer beyond the text is undefined, and the text behind the capture ends
-- at its first zero.
unfoldable pub replace_one : Bytes → Replacement → Bytes → Option Bytes
replace_one haystack r subst =
    if ltb (length haystack) (r.position + r.length)
    then none
    else some
        (take r.position haystack ++ (subst ++ before 0 (drop (r.position + r.length) haystack)))
