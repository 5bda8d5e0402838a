-- ===== src/Socket/Peeking.antt =====
-- socket.h, peekData. The flags are bits: Coalesce 1, Flush 2, Sort 4. `malloc` says whether so many
-- bytes are to be had.
use drumlin.Prelude.{
  ap, subst, ℕ, ◌+◌, ◌/◌, ◌%◌, ◌≡◌, refl, sym, ◌∙◌, ◌⊎◌, inl, inr, Bool, true, false, ◌&&◌, Option,
  none, some, List, [], ◌∷◌, ◌++◌, append-nil, append_assoc, arith, ◌==◌, if◌then◌else◌, Bool-cases,
  length, length-append, Bytes, nat_eq, bytes_eq,
}
use drumlin.Socket.{Socket, SocketHandler, concat}

abbrev pub has_flag : ℕ → ℕ → Bool
has_flag flag flags = (flags / flag) % 2 == 1

-- The first loop, which adds the lengths up.
pub total_length : ℕ → List Bytes → ℕ
total_length n [] = n
total_length n (buf ∷ bufs) = total_length (n + length buf) bufs

-- The second loop: `freud` up to `pos`.
pub copy_buffers : Bytes → List Bytes → Bytes
copy_buffers freud [] = freud
copy_buffers freud (buf ∷ bufs) = copy_buffers (freud ++ buf) bufs

module _ (handler : SocketHandler) (malloc : ℕ → Bool) where
  unfoldable pub sorted : ℕ → Socket → List Bytes
  sorted flags s =
      if s.has_handler && has_flag 4 flags then handler.sort s.read_buffers else s.read_buffers

  -- The end of peekData.
  pub flushed : ℕ → Socket → Bytes → Option (Socket × Bytes)
  flushed flags s freud =
      if has_flag 2 flags then some (record s { read_buffers = [] }, freud) else some (s, freud)

  pub peek_front : ℕ → Socket → List Bytes → Option (Socket × Bytes)
  unfolding flushed
  peek_front flags s [] = none
  peek_front flags s (buf ∷ bufs) = if malloc (1 + length buf) then flushed flags s buf else none

  -- Socket::peekData; a front of no buffers, and a copy to a block that was not to be had, are
  -- undefined.
  unfoldable pub peek_data : ℕ → Socket → Option (Socket × Bytes)
  unfolding sorted total_length copy_buffers flushed peek_front
  peek_data flags s =
      let bufs = sorted flags s in
      let seen = record s { read_buffers = bufs } in
      let n = total_length 0 bufs in
      if has_flag 1 flags
      then if n == 0
        then flushed flags seen []
        else if malloc (n + 1)
        then flushed flags seen (copy_buffers [] bufs)
        else some (seen, [])
      else peek_front flags seen bufs

total_length-concat : (n : ℕ) (bufs : List Bytes) → total_length n bufs ≡ n + length (concat bufs)
unfolding total_length
total_length-concat n [] = omega arith
total_length-concat n (buf ∷ bufs) =
    omega (arith, total_length-concat (n + length buf) bufs, length-append buf (concat bufs))

copy_buffers-concat :
    (freud : Bytes) (bufs : List Bytes) → copy_buffers freud bufs ≡ freud ++ concat bufs
unfolding copy_buffers
copy_buffers-concat freud [] = sym (append-nil freud)
copy_buffers-concat freud (buf ∷ bufs) =
    copy_buffers-concat (freud ++ buf) bufs ∙ append_assoc freud buf (concat bufs)

flushed_lem :
    (handler : SocketHandler) (malloc : ℕ → Bool) (flags : ℕ) (s : Socket) (freud : Bytes)
    → flushed handler malloc flags s freud
      ≡ some (record s { read_buffers = if has_flag 2 flags then [] else s.read_buffers }, freud)
unfolding flushed
flushed_lem handler malloc flags s freud = elim (Bool-cases (has_flag 2 flags)) [
  | inl e ↦ rw e
  | inr e ↦ rw e
]

List-cases : (bs : List Bytes) → (bs ≡ []) ⊎ ((b : Bytes) × (rest : List Bytes) × (bs ≡ b ∷ rest))
List-cases [] = inl refl
List-cases (b ∷ rest) = inr (b, rest, refl)

empty_bytes : (b : Bytes) → length b ≡ 0 → b ≡ []
empty_bytes [] h = refl
empty_bytes (c ∷ b) h = absurd (omega arith)

sorted_cases :
    (handler : SocketHandler) (malloc : ℕ → Bool) (flags : ℕ) (s : Socket) (bufs : List Bytes)
    → ((has_flag 4 flags ≡ true) × (s.has_handler ≡ true) × (bufs ≡ handler.sort s.read_buffers))
      ⊎ (((has_flag 4 flags ≡ false) ⊎ (s.has_handler ≡ false)) × (bufs ≡ s.read_buffers))
    → sorted handler malloc flags s ≡ bufs
unfolding sorted
sorted_cases handler malloc flags s bufs (inl (f, h, e)) = rw (f, h) (sym e)
sorted_cases handler malloc flags s bufs (inr (inl f, e)) = rw f (ground arith ∙ sym e)
sorted_cases handler malloc flags s bufs (inr (inr h, e)) = rw h (sym e)

coalesces_sorted :
    (handler : SocketHandler) (malloc : ℕ → Bool) (flags : ℕ) (s : Socket)
    → has_flag 1 flags ≡ true
    → malloc (total_length 0 (sorted handler malloc flags s) + 1) ≡ true
    → let bufs = sorted handler malloc flags s in
      (peek_data handler malloc flags s
        ≡ some (record s { read_buffers = if has_flag 2 flags then [] else bufs }, concat bufs))
      × (length (concat bufs) + 1 ≡ total_length 0 bufs + 1)
unfolding peek_data
coalesces_sorted handler malloc flags s c m =
    let bufs = sorted handler malloc flags s in
    let n = total_length-concat 0 bufs in
    let seen : Socket = record s { read_buffers = bufs } in
    (
      elim (Bool-cases (total_length 0 bufs == 0)) [
        | inl z ↦
            let nothing : concat bufs ≡ [] = empty_bytes (concat bufs) (ground (arith, z, n)) in
            rw (c, z, nothing, peek_data) (flushed_lem handler malloc flags seen [])
        | inr z ↦
            rw (c, z, m, copy_buffers-concat [] bufs, peek_data)
              (flushed_lem handler malloc flags seen (concat bufs))
      ],
      omega (arith, n),
    )

-- With Coalesce, let `bufs` be what the handler's sort makes of the buffers where Sort is set and there is
-- a handler, and the buffers as they are where either is missing: where a block of their bytes and one
-- more is to be had, peekData gives the bytes of `bufs`, in order. The buffers are then none if Flush is
-- set, and else `bufs`.
pub peek_data_coalesces :
    (handler : SocketHandler) (malloc : ℕ → Bool) (flags : ℕ) (s : Socket) (bufs : List Bytes)
    → ((has_flag 4 flags ≡ true) × (s.has_handler ≡ true) × (bufs ≡ handler.sort s.read_buffers))
      ⊎ (((has_flag 4 flags ≡ false) ⊎ (s.has_handler ≡ false)) × (bufs ≡ s.read_buffers))
    → has_flag 1 flags ≡ true
    → malloc (length (concat bufs) + 1) ≡ true
    → peek_data handler malloc flags s
      ≡ some (record s { read_buffers = if has_flag 2 flags then [] else bufs }, concat bufs)
peek_data_coalesces handler malloc flags s bufs cases c m =
    let chosen = sorted_cases handler malloc flags s bufs cases in
    let len : total_length 0 bufs ≡ length (concat bufs) =
      omega (arith, total_length-concat 0 bufs) in
    let room : malloc (total_length 0 (sorted handler malloc flags s) + 1) ≡ true =
      ap (λ bs. malloc (total_length 0 bs + 1)) chosen ∙ ap (λ n. malloc (n + 1)) len ∙ m in
    subst
      (λ bs.
        peek_data handler malloc flags s
        ≡ some (record s { read_buffers = if has_flag 2 flags then [] else bs }, concat bs))
      chosen (coalesces_sorted handler malloc flags s c room).0

-- Without Coalesce, peekData on a socket without buffers reads a front that is not there; otherwise,
-- where the block is to be had, it gives the first buffer, and Flush drops all of them with it.
peek_data_front :
    (handler : SocketHandler) (malloc : ℕ → Bool) (flags : ℕ) (s : Socket)
    → has_flag 1 flags ≡ false
    → ((n : ℕ) → malloc n ≡ true)
    → let bufs = sorted handler malloc flags s in
      ((bufs ≡ []) × (peek_data handler malloc flags s ≡ none))
      ⊎ ((buf : Bytes) × (rest : List Bytes) × (bufs ≡ buf ∷ rest)
          × (peek_data handler malloc flags s
              ≡ some (record s { read_buffers = if has_flag 2 flags then [] else bufs }, buf)))
unfolding peek_data peek_front
peek_data_front handler malloc flags s c m =
    let bufs = sorted handler malloc flags s in
    elim (List-cases bufs) [
      | inl e ↦ inl (e, rw (c, e, peek_data))
      | inr (buf, rest, e) ↦
          let seen : Socket = record s { read_buffers = buf ∷ rest } in
          inr (
            buf,
            rest,
            e,
            rw (c, e, m (1 + length buf), peek_data) (flushed_lem handler malloc flags seen buf),
          )
    ]
