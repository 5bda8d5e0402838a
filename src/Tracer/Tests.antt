-- ===== src/Tracer/Tests.antt =====
-- Concrete runs of the theorems of the tracer.
use drumlin.Prelude.{
  ℕ, ◌-◌, ◌≡◌, refl, ap, ◌∙◌, ◌≢◌, Option, none, some, List, [], ◌∷◌, ◌++◌, map, append_assoc,
  arith, length, get_elem?, take, length-append, take-append, All, Bytes, codes, Lacks, nat_eq,
  bytes_eq,
}
use drumlin.Tracer.{Tracer}
use drumlin.Tracer.Unwinding.{Frame, newline, backtrace}
use drumlin.Tracer.Unwinding.Recording.{
  Library, unlined, until_zero, symbols, IsPlain, backtrace_records,
}
use drumlin.StringList.Joined.{split, split-append, split_at_sep}
use drumlin.StringList.Splitting.{strip}

abbrev empty_tracer : Tracer
empty_tracer = record { roll = []; chain = [] }

-- Numbers are printed as the one digit 1, and no name is mangled.
abbrev digits : ℕ → Bytes
digits n = codes "1"

abbrev after_name : Bytes
after_name = codes "+0x1)"

-- The name in a line of such numbers.
abbrev named_in : Bytes → Option Bytes
named_in line = elim (strip (codes "0x1: (") line) [
  | none ↦ none
  | some rest ↦ some (take (length rest - 5) rest)
]

named_in_lem : (name : Bytes) → take (length (name ++ after_name) - 5) (name ++ after_name) ≡ name
named_in_lem name =
    let e : length (name ++ after_name) - 5 ≡ length name =
      omega (arith, length-append name after_name) in
    rw e (take-append name after_name)

split_lines :
    (lines : List Bytes)
    → All (λ t. (t ≢ []) × Lacks b'\n' t) lines
    → (rest : List Bytes) × (split b'\n' [] (unlined lines ++ newline) ≡ lines ++ [] ∷ rest)
unfolding unlined split
split_lines [] h = ([] ∷ [], refl)
split_lines (t ∷ lines) (h, hs) =
    let (rest, e) = split_lines lines hs in
    let more = unlined lines ++ newline in
    (
      rest,
      ap (λ s. split b'\n' [] s) (append_assoc t (newline ++ unlined lines) newline)
          ∙ split-append b'\n' [] t (newline ++ more) h.1
          ∙ split_at_sep b'\n' t more
          ∙ ap (λ ls. t ∷ ls) e,
    )

abbrev one_digit : Library
unfolding strip
one_digit = record {
  hex = digits;
  demangle = λ sym. none;
  split = λ s. split b'\n' [] s;
  matched = named_in;
  hex_plain = λ n. omega arith;
  split_lines = split_lines;
  matched_name = λ pc offset name h. ap some (named_in_lem name);
  matched_none = λ pc. refl;
}

-- A frame with a name, one without, one with the first one's name, the end, and one behind it.
abbrev five_frames : List Frame
five_frames =
    record { pc = 7; symbol = some (codes "main", 3) }
    ∷ record { pc = 8; symbol = none }
    ∷ record { pc = 9; symbol = some (codes "main", 4) }
    ∷ record { pc = 0; symbol = none }
    ∷ record { pc = 5; symbol = some (codes "lost", 1) }
    ∷ []

backtrace_records_example :
    (after : Tracer) × (stack : List ℕ) × (more : List Bytes) × (backtrace digits
        (λ sym. none)
        (λ s. split b'\n' [] s)
        named_in
        100
        five_frames
        (some empty_tracer)
      ≡ some (some after))
    × (after.chain ≡ empty_tracer.chain ++ stack ∷ [])
    × (after.roll ≡ empty_tracer.roll ++ more)
    × (map (λ i. get_elem? after.roll i) stack
        ≡ map (λ (name : Bytes). some name) (symbols one_digit (until_zero (take 100 five_frames))))
unfolding until_zero IsPlain one_digit
backtrace_records_example = backtrace_records one_digit 100 five_frames empty_tracer (omega arith)
