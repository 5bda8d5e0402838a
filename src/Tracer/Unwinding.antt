-- ===== src/Tracer/Unwinding.antt =====
-- cursor.cpp, Cursor::backtrace: the frames that libunwind steps through are printed, a line for each, and the
-- tracer is given the text as a block. A frame is what libunwind says of it; a mangled name is
-- demangled where that goes well. The branch for Windows is left out.
pub mod Recording
use drumlin.Prelude.{
  ℕ, zero, suc, sym, Option, none, some, List, [], ◌∷◌, ◌++◌, ◌==◌, if◌then◌else◌, Bytes, codes,
  before, nat_eq, bytes_eq,
}
use drumlin.Tracer.{Tracer, add_block}

-- A frame: its program counter, and the name and the offset where there is a name.
pub record Frame : Type 0 where
  pub pc : ℕ
  pub symbol : Option (Bytes × ℕ)

abbrev pub newline : Bytes
newline = b'\n' ∷ []

abbrev pub no_symbol : Bytes
no_symbol = codes " -- error: unable to obtain symbol name for this frame"

module _ (hex : ℕ → Bytes) (demangle : Bytes → Option Bytes) where
  -- What is printed as the name.
  pub name_of : Bytes → Bytes
  name_of sym = elim (demangle sym) [ none ↦ sym | some demangled ↦ demangled ]

  -- A frame's line, without its end.
  pub frame_text : Frame → Bytes
  unfolding name_of
  frame_text f =
      codes "0x"
      ++ (hex f.pc
          ++ (codes ":" ++ elim f.symbol [
            | none ↦ no_symbol
            | some (sym, offset) ↦
                codes " (" ++ (name_of sym ++ (codes "+0x" ++ (hex offset ++ codes ")")))
          ]))

  -- The loop.
  pub frame_texts : ℕ → List Frame → Bytes
  unfolding frame_text
  frame_texts zero frames = []
  frame_texts (suc n) [] = []
  frame_texts (suc n) (f ∷ frames) =
      let rest = frame_texts n frames in if f.pc == 0 then [] else frame_text f ++ (newline ++ rest)

  -- Cursor::backtrace, with boost's split and the regular expression of addBlock, and what may be no tracer.
  pub backtrace :
      (Bytes → List Bytes)
      → (Bytes → Option Bytes)
      → ℕ
      → List Frame
      → Option Tracer
      → Option (Option Tracer)
  unfolding frame_texts
  backtrace split matched n frames none = some none
  backtrace split matched n frames (some self) =
      elim (add_block matched (split (before 0 (frame_texts n frames ++ newline))) self) [
        | none ↦ none
        | some after ↦ some (some after)
      ]
