-- ===== src/Tracer/Interning.antt =====
-- cursor.cpp, addBlock: the places in a stack lead back to the names.
use mathlib.Core.Option
use drumlin.Prelude.{
  ℕ, zero, suc, ◌+◌, ◌≡◌, refl, sym, ap, ◌∙◌, ◌⊎◌, inl, inr, false, Option, none, some, List, [],
  ◌∷◌, ◌++◌, map, append-nil, append_assoc, arith, Bool-cases, Option-cases, length, get_elem?, All,
  Bytes, eq_bytes, eq_bytes_iff, nat_eq, bytes_eq,
}
use drumlin.Tracer.{Tracer, find_name, intern, names_of, block_loop, add_block}

get_elem?-append {ℓ} :
    {A : Type ℓ} (xs ys : List A) (i : ℕ) (a : A)
    → get_elem? xs i ≡ some a
    → get_elem? (xs ++ ys) i ≡ some a
get_elem?-append [] ys i a h = absurd (Option.none-ne-some a h)
get_elem?-append (x ∷ xs) ys zero a h = h
get_elem?-append (x ∷ xs) ys (suc i) a h = get_elem?-append xs ys i a h

get_elem?-length {ℓ} :
    {A : Type ℓ} (xs : List A) (a : A) → get_elem? (xs ++ a ∷ []) (length xs) ≡ some a
get_elem?-length [] a = refl
get_elem?-length (x ∷ xs) a = get_elem?-length xs a

find_name_cases :
    (name : Bytes) (xs : List Bytes) (i : ℕ)
    → ((find_name name xs i ≡ none) × All (λ x. eq_bytes name x ≡ false) xs)
      ⊎ ((k : ℕ) × (find_name name xs i ≡ some (i + k)) × (get_elem? xs k ≡ some name))
unfolding find_name
find_name_cases name [] i = inl (refl, tt)
find_name_cases name (x ∷ xs) i = elim (Bool-cases (eq_bytes name x)) [
  | inl hit ↦
      let here : i ≡ i + 0 = omega arith in
      inr (0, rw hit (ap some here), ap some (sym ((eq_bytes_iff name x).0 hit)))
  | inr miss ↦ elim (find_name_cases name xs (i + 1)) [
    | inl (e, all) ↦ inl (rw (miss, e), (miss, all))
    | inr (k, e, at) ↦
        let there : i + 1 + k ≡ i + suc k = omega arith in
        inr (suc k, rw miss (e ∙ ap some there), at)
  ]
]

-- What intern gives: a place of the name in a roll that it only makes longer.
intern_place :
    (name : Bytes) (roll : List Bytes)
    → (get_elem? (intern name roll).1 (intern name roll).0 ≡ some name)
      × ((more : List Bytes) × ((intern name roll).1 ≡ roll ++ more))
unfolding intern
intern_place name roll = elim (find_name_cases name roll 0) [
  | inl (e, _) ↦ rw (e, intern) (get_elem?-length roll name, (name ∷ [], refl))
  | inr (k, e, at) ↦
      let here : 0 + k ≡ k = omega arith in rw (e, intern, here) (at, ([], sym (append-nil roll)))
]

module _ (matched : Bytes → Option Bytes) where
  -- What the loop makes of a roll and a stack, for the names of the lines.
  abbrev Interned : List Bytes → List Bytes → List ℕ → List Bytes → List ℕ → Type 0
  Interned names roll stack after grown =
      (more : List Bytes) × (places : List ℕ) × (after ≡ roll ++ more)
      × (grown ≡ stack ++ places)
      × (map (λ i. get_elem? after i) places ≡ map (λ (n : Bytes). some n) names)

  Interned-step :
      (name : Bytes) (names roll : List Bytes) (stack : List ℕ) (after : List Bytes)
      (grown : List ℕ)
      → Interned names (intern name roll).1 (stack ++ (intern name roll).0 ∷ []) after grown
      → Interned (name ∷ names) roll stack after grown
  Interned-step name names roll stack after grown (more, places, e, f, g) =
      let (at, (more', h)) = intern_place name roll in
      let i = (intern name roll).0 in
      let found : get_elem? after i ≡ some name =
        ap (λ xs. get_elem? xs i) e ∙ get_elem?-append (intern name roll).1 more i name at in
      (
        more' ++ more,
        i ∷ places,
        e ∙ ap (λ xs. xs ++ more) h ∙ append_assoc roll more' more,
        f ∙ append_assoc stack (i ∷ []) places,
        rw (found, g),
      )

  block_loop_cases :
      (lines roll : List Bytes) (stack : List ℕ)
      → ((names_of matched lines ≡ none) × (block_loop matched lines roll stack ≡ none))
        ⊎ ((names after : List Bytes) × (grown : List ℕ) × (names_of matched lines ≡ some names)
            × (block_loop matched lines roll stack ≡ some (after, grown))
            × Interned names roll stack after grown)
  unfolding names_of block_loop
  block_loop_cases [] roll stack = inl (refl, refl)
  block_loop_cases ([] ∷ lines) roll stack =
      inr
        ([], roll, stack, refl, refl, ([], [], sym (append-nil roll), sym (append-nil stack), refl))
  block_loop_cases ((c ∷ line) ∷ lines) roll stack = elim (Option-cases (matched (c ∷ line))) [
    | inl miss ↦ rw (miss, names_of, block_loop) (block_loop_cases lines roll stack)
    | inr (name, hit) ↦
        let next = intern name roll in
        elim (block_loop_cases lines next.1 (stack ++ next.0 ∷ [])) [
          | inl (e, f) ↦ inl (rw (hit, e, names_of), rw (hit, f, block_loop))
          | inr (names, after, grown, e, f, found) ↦ inr (
            name ∷ names,
            after,
            grown,
            rw (hit, e, names_of),
            rw (hit, f, block_loop),
            Interned-step name names roll stack after grown found,
          )
        ]
  ]

-- addBlock is undefined exactly for a block without an empty line. Otherwise it adds one stack to
-- the chain, and makes the roll only longer; the places of the stack lead, in the new
-- roll, to the names that the expression finds in the lines before the first empty one, in
-- their order.
pub add_block_cases :
    (matched : Bytes → Option Bytes) (lines : List Bytes) (self : Tracer)
    → ((names_of matched lines ≡ none) × (add_block matched lines self ≡ none))
      ⊎ ((names : List Bytes) × (after : Tracer) × (stack : List ℕ) × (more : List Bytes)
          × (names_of matched lines ≡ some names)
          × (add_block matched lines self ≡ some after)
          × (after.chain ≡ self.chain ++ stack ∷ [])
          × (after.roll ≡ self.roll ++ more)
          × (map (λ i. get_elem? after.roll i) stack ≡ map (λ (n : Bytes). some n) names))
unfolding add_block
add_block_cases matched lines self = elim (block_loop_cases matched lines self.roll []) [
  | inl (e, f) ↦ inl (e, rw (f, add_block))
  | inr (names, roll, stack, e, f, (more, places, grows, same, leads)) ↦ inr (
    names,
    record { roll = roll; chain = self.chain ++ stack ∷ [] },
    stack,
    more,
    e,
    rw (f, add_block),
    refl,
    grows,
    ap (λ is. map (λ i. get_elem? roll i) is) same ∙ leads,
  )
]
