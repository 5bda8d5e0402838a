-- ===== src/Tracer/Unwinding/Recording.antt =====
-- cursor.cpp, backtrace and addBlock together: what the tracer records of the frames.
use drumlin.Prelude.{
  ℕ, zero, suc, ◌<◌, ◌≡◌, refl, sym, ap, ◌∙◌, subst, ◌≢◌, inl, inr, Option, none, some, List, [],
  ◌∷◌, ◌++◌, map, append_assoc, arith, ◌==◌, if◌then◌else◌, Bool-cases, Option-cases, get_elem?,
  take, All, All-append, Bytes, codes, Lacks, before, before-Lacks, nat_eq, bytes_eq,
}
use mathlib.Core.Option.{some_inj, none-ne-some}
use drumlin.Tracer.{Tracer, names_of}
use drumlin.Tracer.Interning.{add_block_cases}
use drumlin.Tracer.Unwinding.{
  Frame, newline, no_symbol, name_of, frame_text, frame_texts, backtrace,
}

-- The frames in front of one whose program counter is 0.
unfoldable pub until_zero : List Frame → List Frame
until_zero [] = []
until_zero (f ∷ frames) = if f.pc == 0 then [] else f ∷ until_zero frames

-- The lines of a text.
unfoldable pub unlined : List Bytes → Bytes
unlined [] = []
unlined (l ∷ lines) = l ++ (newline ++ unlined lines)

-- What the tracer relies on: the hexadecimal digits are no line ends, the split goes by lines, and the
-- expression finds the name in a line with a name and nothing in one without.
pub record Library : Type 0 where
  pub hex : ℕ → Bytes
  pub demangle : Bytes → Option Bytes
  pub split : Bytes → List Bytes
  pub matched : Bytes → Option Bytes
  pub hex_plain : (n : ℕ) → Lacks b'\n' (hex n) × Lacks 0 (hex n)
  pub split_lines :
      (lines : List Bytes)
      → All (λ l. (l ≢ []) × Lacks b'\n' l) lines
      → (rest : List Bytes) × (split (unlined lines ++ newline) ≡ lines ++ [] ∷ rest)
  pub matched_name :
      (pc offset : ℕ) (name : Bytes)
      → Lacks b'\n' name
      → matched (
          codes "0x"
          ++ (hex pc
              ++ (codes ":"
                  ++ (codes " (" ++ (name ++ (codes "+0x" ++ (hex offset ++ codes ")")))))))
        ≡ some name
  pub matched_none : (pc : ℕ) → matched (codes "0x" ++ (hex pc ++ (codes ":" ++ no_symbol))) ≡ none

module _ (l : Library) where
  open l use {hex, demangle, split, matched, hex_plain, split_lines, matched_name, matched_none}

  -- The names of the frames that have one.
  pub symbols : List Frame → List Bytes
  unfolding name_of
  symbols [] = []
  symbols (f ∷ frames) =
      let rest = symbols frames in
      elim f.symbol [ none ↦ rest | some (sym, offset) ↦ name_of hex demangle sym ∷ rest ]

  -- A name without a line end and without a 0.
  unfoldable pub IsPlain : Option (Bytes × ℕ) → Type 0
  unfolding name_of
  IsPlain none = Unit
  IsPlain (some (sym, offset)) =
      Lacks b'\n' (name_of hex demangle sym) × Lacks 0 (name_of hex demangle sym)

  frame_texts-unlined :
      (n : ℕ) (frames : List Frame)
      → frame_texts hex demangle n frames
        ≡ unlined (map (λ f. frame_text hex demangle f) (until_zero (take n frames)))
  unfolding frame_texts unlined until_zero
  frame_texts-unlined zero frames = refl
  frame_texts-unlined (suc n) [] = refl
  frame_texts-unlined (suc n) (f ∷ frames) = elim (Bool-cases (f.pc == 0)) [
    | inl e ↦ rw (e, frame_texts, until_zero) refl
    | inr e ↦ rw (e, frame_texts, until_zero, frame_texts-unlined n frames) refl
  ]

  -- A byte that no literal, no number and no name has is in no line.
  frame_text-Lacks :
      (c : ℕ) (f : Frame)
      → c < 32
      → ((n : ℕ) → Lacks c (hex n))
      → ((sym : Bytes) (offset : ℕ)
          → f.symbol ≡ some (sym, offset)
          → Lacks c (name_of hex demangle sym))
      → Lacks c (frame_text hex demangle f)
  unfolding frame_text
  frame_text-Lacks c f h digits names = elim (Option-cases f.symbol) [
    | inl e ↦
        rw (e, frame_text)
          (both (codes "0x") (hex f.pc ++ (codes ":" ++ no_symbol)) (omega arith)
            (both (hex f.pc) (codes ":" ++ no_symbol) (digits f.pc) (omega arith)))
    | inr ((sym, offset), e) ↦
        let name = name_of hex demangle sym in
        let end = codes "+0x" ++ (hex offset ++ codes ")") in
        let tail = codes " (" ++ (name ++ end) in
        rw (e, frame_text)
          (both (codes "0x") (hex f.pc ++ (codes ":" ++ tail)) (omega arith) (
            both (hex f.pc) (codes ":" ++ tail) (digits f.pc) (
              both (codes ": (") (name ++ end) (omega arith) (
                both name end (names sym offset e) (
                  both (codes "+0x") (hex offset ++ codes ")") (omega arith)
                    (both (hex offset) (codes ")") (digits offset) (omega arith)))))))
  ]
    where
      both : (xs ys : Bytes) → Lacks c xs → Lacks c ys → Lacks c (xs ++ ys)
      both xs ys hx hy = All-append (λ x. x ≢ c) xs ys hx hy

  IsPlain-Lacks :
      (f : Frame)
      → IsPlain f.symbol
      → (sym : Bytes) (offset : ℕ) → f.symbol ≡ some (sym, offset)
      → Lacks b'\n' (name_of hex demangle sym) × Lacks 0 (name_of hex demangle sym)
  unfolding IsPlain
  IsPlain-Lacks f h sym offset e = subst (λ o. IsPlain o) e h

  abbrev texts : List Frame → List Bytes
  texts frames = map (λ f. frame_text hex demangle f) frames

  texts_plain :
      (frames : List Frame)
      → All (λ f. IsPlain f.symbol) frames
      → All (λ t. (t ≢ []) × Lacks b'\n' t) (texts frames) × All (λ t. Lacks 0 t) (texts frames)
  unfolding frame_text
  texts_plain [] h = (tt, tt)
  texts_plain (f ∷ frames) (h, hs) =
      let (lines, zeros) = texts_plain frames hs in
      (
        (
          (
            λ e. cc,
            frame_text-Lacks b'\n' f (omega arith) (λ n. (hex_plain n).0)
                (λ sym offset e. (IsPlain-Lacks f h sym offset e).0),
          ),
          lines,
        ),
        (
          frame_text-Lacks 0 f (omega arith) (λ n. (hex_plain n).1)
              (λ sym offset e. (IsPlain-Lacks f h sym offset e).1),
          zeros,
        ),
      )

  unlined-Lacks :
      (lines : List Bytes) → All (λ t. Lacks 0 t) lines → Lacks 0 (unlined lines ++ newline)
  unfolding unlined
  unlined-Lacks [] h = omega arith
  unlined-Lacks (t ∷ lines) (h, hs) =
      subst (λ x. Lacks 0 x) (sym (append_assoc t (newline ++ unlined lines) newline))
        (All-append (λ x. x ≢ 0) t (newline ++ (unlined lines ++ newline)) h
          (omega arith, unlined-Lacks lines hs))

  names_of-texts :
      (frames : List Frame) (rest : List Bytes)
      → All (λ f. IsPlain f.symbol) frames
      → names_of matched (texts frames ++ [] ∷ rest) ≡ some (symbols frames)
  unfolding names_of frame_text symbols
  names_of-texts [] rest h = refl
  names_of-texts (f ∷ frames) rest (h, hs) = elim (Option-cases f.symbol) [
    | inl e ↦ rw (e, matched_none f.pc) (names_of-texts frames rest hs)
    | inr ((sym, offset), e) ↦
        let name = name_of hex demangle sym in
        let plain = (IsPlain-Lacks f h sym offset e).0 in
        rw (e, matched_name f.pc offset name plain, names_of-texts frames rest hs) refl
  ]

  -- A backtrace with a tracer adds one stack to its chain, and makes the roll only longer. The places of the
  -- stack lead, in the new roll, to the names of the frames that have one, in their order, among the
  -- first n frames that stand before one whose program counter is 0; the names hold no line end and
  -- no 0.
  pub backtrace_records :
      (n : ℕ) (frames : List Frame) (self : Tracer)
      → All (λ f. IsPlain f.symbol) (until_zero (take n frames))
      → (after : Tracer) × (stack : List ℕ) × (more : List Bytes) × (backtrace hex demangle split
            matched n frames
            (some self)
          ≡ some (some after))
        × (after.chain ≡ self.chain ++ stack ∷ [])
        × (after.roll ≡ self.roll ++ more)
        × (map (λ i. get_elem? after.roll i) stack
            ≡ map (λ (name : Bytes). some name) (symbols (until_zero (take n frames))))
  unfolding backtrace
  backtrace_records n frames self plain =
      let walked = until_zero (take n frames) in
      let (lines, zeros) = texts_plain walked plain in
      let (rest, e) = split_lines (texts walked) lines in
      let text = unlined (texts walked) ++ newline in
      let printed : split (before 0 (frame_texts hex demangle n frames ++ newline))
          ≡ texts walked ++ [] ∷ rest =
        ap (λ t. split (before 0 (t ++ newline))) (frame_texts-unlined n frames)
        ∙ ap split (before-Lacks 0 text (unlined-Lacks (texts walked) zeros))
        ∙ e in
      let found = names_of-texts walked rest plain in
      elim (add_block_cases matched (texts walked ++ [] ∷ rest) self) [
        | inl (lost, _) ↦ absurd (none-ne-some (symbols walked) (sym lost ∙ found))
        | inr (names, after, stack, more, e', done, chain, roll, leads) ↦
            let same = some_inj.0 (sym e' ∙ found) in
            (
              after,
              stack,
              more,
              rw (printed, done, backtrace) refl,
              chain,
              roll,
              leads ∙ ap (λ ns. map (λ (name : Bytes). some name) ns) same,
            )
      ]
