-- ===== src/Heap/Layout.antt =====
-- allocator.cpp, heap_t::alloc and heap_t::free: where the blocks of a heap lie.
use drumlin.Prelude.{
  ℕ, ap, ◌∙◌, ◌*◌, ◌+◌, ◌-◌, ◌/◌, ◌%◌, ◌≤◌, ◌<◌, ◌≡◌, refl, ◌⊎◌, inl, inr, List, [], ◌∷◌, ◌++◌, map,
  arith, All, nat_eq, bytes_eq,
}
use native.Mathlib.Nat.{mul-mod_left, add-mul-div_right, div-eq_of_lt}
use drumlin.Heap.{word, Block, Heap, marked, back_second, round_up}

-- Blocks of one size lie behind one another from `lo` on, aligned, and end before `hi`.
abbrev pub Spaced : ℕ → ℕ → ℕ → ℕ → List Block → Type 0
Spaced size align hi lo [] = Unit {0}
Spaced size align hi lo (b ∷ bs) =
    (lo ≤ b.second)
    × (b.second + size ≤ hi)
    × (b.second % align ≡ 0)
    × Spaced size align hi (b.second + size) bs

pub record IsLaidOut (h : Heap) : Type 0 where
  pub spaced : Spaced h.size h.align (h.memory + h.max) h.memory h.blocks
  pub size_pos : 0 < h.size
  pub align_pos : 0 < h.align
  pub no_wrap : h.memory + h.max < word
  pub starts : round_up h.align h.memory ≡ h.memory
  pub first_fits : h.size ≤ h.max

pub le-round_up : (a x : ℕ) → 0 < a → x ≤ round_up a x
unfolding round_up
le-round_up a x h = omega arith

pub round_up-mod : (a x : ℕ) → 0 < a → round_up a x % a ≡ 0
unfolding round_up
round_up-mod a x h = mul-mod_left ((x + a - 1) / a) a

-- An address that was rounded up stays.
pub round_up-twice : (a x : ℕ) → 0 < a → round_up a (round_up a x) ≡ round_up a x
unfolding round_up
round_up-twice a x h =
    let k = (x + a - 1) / a in
    let e : k * a + a - 1 ≡ (a - 1) + k * a = omega (arith, h) in
    let small : (a - 1) / a ≡ 0 = div-eq_of_lt (omega (arith, h)) in
    let zero_add : 0 + k ≡ k = omega arith in
    let q : (k * a + a - 1) / a ≡ k =
      ap (λ y. y / a) e ∙ add-mul-div_right (a - 1) k h ∙ ap (λ y. y + k) small ∙ zero_add in
    ap (λ y. y * a) q

module _ (size align hi : ℕ) where
  pub Spaced-marked :
      (f lo : ℕ) (xs ys : List Block) (b : Block)
      → Spaced size align hi lo (xs ++ b ∷ ys)
      → Spaced size align hi lo (xs ++ marked f b ∷ ys)
  Spaced-marked f lo [] ys b h = h
  Spaced-marked f lo (x ∷ xs) ys b h =
      (h.0, h.1, h.2, Spaced-marked f (x.second + size) xs ys b h.3)

  pub Spaced-map :
      (f lo : ℕ) (bs : List Block)
      → Spaced size align hi lo bs
      → Spaced size align hi lo (map (marked f) bs)
  Spaced-map f lo [] h = tt
  Spaced-map f lo (b ∷ bs) h = (h.0, h.1, h.2, Spaced-map f (b.second + size) bs h.3)

  -- The end of the last block, or `lo` where there is none.
  abbrev pub end_of : ℕ → List Block → ℕ
  end_of lo [] = lo
  end_of lo (b ∷ bs) = end_of (b.second + size) bs

  pub Spaced-snoc :
      (lo : ℕ) (bs : List Block) (b : Block)
      → Spaced size align hi lo bs
      → end_of lo bs ≤ b.second
      → b.second + size ≤ hi
      → b.second % align ≡ 0
      → Spaced size align hi lo (bs ++ b ∷ [])
  Spaced-snoc lo [] b h p q r = (p, q, r, tt)
  Spaced-snoc lo (x ∷ bs) b h p q r = (h.0, h.1, h.2, Spaced-snoc (x.second + size) bs b h.3 p q r)

  pub end_of_bounds :
      (lo : ℕ) (bs : List Block)
      → Spaced size align hi lo bs
      → lo ≤ hi
      → (lo ≤ end_of lo bs) × (end_of lo bs ≤ hi)
  end_of_bounds lo [] h k = (omega arith, k)
  end_of_bounds lo (b ∷ bs) h k =
      let (p, q) = end_of_bounds (b.second + size) bs h.3 h.1 in (omega (arith, h.0), q)

  pub end_of-back_second :
      (lo stale : ℕ) (b : Block) (bs : List Block)
      → end_of lo (b ∷ bs) ≡ back_second stale (b ∷ bs) + size
  unfolding back_second
  end_of-back_second lo stale b [] = refl
  end_of-back_second lo stale b (c ∷ bs) = end_of-back_second lo b.second c bs

  -- A block takes the addresses of no block in use.
  abbrev pub IsApart : ℕ → Block → Type 0
  IsApart p b = (b.first ≡ 0) ⊎ (b.second + size ≤ p) ⊎ (p + size ≤ b.second)

  Spaced-behind :
      (lo p : ℕ) (bs : List Block) → Spaced size align hi lo bs → p + size ≤ lo → All (IsApart p) bs
  Spaced-behind lo p [] h k = tt
  Spaced-behind lo p (b ∷ bs) h k = (
    inr (inr (omega (arith, h.0))),
    Spaced-behind (b.second + size) p bs h.3 (omega (arith, h.0)),
  )

  pub Spaced-before :
      (lo p : ℕ) (bs : List Block)
      → Spaced size align hi lo bs
      → end_of lo bs ≤ p
      → All (IsApart p) bs × (lo ≤ p)
  Spaced-before lo p [] h k = (tt, k)
  Spaced-before lo p (b ∷ bs) h k =
      let (all, le) = Spaced-before (b.second + size) p bs h.3 k in
      ((inr (inl le), all), omega (arith, h.0))

  pub Spaced-middle :
      (lo : ℕ) (xs ys : List Block) (b : Block)
      → b.first ≡ 0
      → Spaced size align hi lo (xs ++ b ∷ ys)
      → All (IsApart b.second) (xs ++ b ∷ ys)
        × (lo ≤ b.second)
        × (b.second + size ≤ hi)
        × (b.second % align ≡ 0)
  Spaced-middle lo [] ys b f h =
      ((inl f, Spaced-behind (b.second + size) b.second ys h.3 (omega arith)), h.0, h.1, h.2)
  Spaced-middle lo (x ∷ xs) ys b f h =
      let (all, p, q, r) = Spaced-middle (x.second + size) xs ys b f h.3 in
      ((inr (inl p), all), omega (arith, h.0), q, r)
