-- ===== src/Socket/Sending.antt =====
-- What writing() puts on the wire in the synchronous mode, whatever the wire accepts.
use drumlin.Prelude.{
  ℕ, zero, suc, ◌+◌, ◌%◌, ◌^◌, ◌<◌, ◌≡◌, refl, sym, ap, ◌∙◌, subst, ◌≢◌, ◌⊎◌, inl, inr, true, false,
  not, List, [], ◌∷◌, ◌++◌, append-nil, append_assoc, arith, ltb, ◌==◌, Bool-cases, if_cases,
  length, take, take_all, Bytes, nat_eq, bytes_eq,
}
use drumlin.Socket.{
  Socket, SocketHandler, Sent, sent, failed, Outcome, undefined, spent, returned, concat, error,
  complete, after_front, bytes_written, of_sent, send_front, writing,
}

-- What is on the wire of a buffer that was not accepted as a whole: a part of the first that is left.
abbrev pub IsPart : Bytes → List Bytes → Type 0
IsPart part rest =
    (part ≡ [])
    ⊎ ((front : Bytes) × (more : List Bytes) × (sz : ℕ) × (rest ≡ front ∷ more)
        × (sz < length front)
        × (part ≡ take sz front))

-- Some buffers from the front are gone and stand on the wire, and a part of the next may stand behind.
abbrev pub IsSent : Socket → Socket → Type 0
IsSent s after =
    (done : List Bytes) × (part : Bytes) × (s.write_buffers ≡ done ++ after.write_buffers)
    × (after.wire ≡ s.wire ++ (concat done ++ part))
    × IsPart part after.write_buffers

abbrev pub Sends : Socket → Outcome → Type 0
Sends s undefined = (s.write_buffers ≡ []) ⊎ (s.has_handler ≡ false)
Sends s spent = Unit {0}
Sends s (returned after) = IsSent s after

-- A change of the socket that leaves its buffers and the wire alone.
abbrev pub IsAside : Socket → Socket → Type 0
IsAside s after = (after.write_buffers ≡ s.write_buffers) × (after.wire ≡ s.wire)

IsAside-IsSent : (s after : Socket) → IsAside s after → IsSent s after
IsAside-IsSent s after (b, w) = ([], [], sym b, w ∙ sym (append-nil s.wire), inl refl)

error-IsAside : (ec : ℕ) (s : Socket) → IsAside s (error ec s)
unfolding error
error-IsAside ec s = elim (Bool-cases s.has_connection) [
  | inl c ↦ rw c (refl, refl)
  | inr c ↦ elim (Bool-cases s.has_handler) [
    | inl h ↦ rw (c, h) (refl, refl)
    | inr h ↦ rw (c, h) (refl, refl)
  ]
]

-- What follows the front of the buffers, which is on the wire.
after_popped :
    (s popped : Socket) (front : Bytes) (rest : List Bytes) (o : Outcome)
    → s.write_buffers ≡ front ∷ rest
    → rest ≢ []
    → popped.write_buffers ≡ rest
    → popped.wire ≡ s.wire ++ front
    → popped.has_handler ≡ s.has_handler
    → Sends popped o
    → Sends s o
after_popped s popped front rest undefined b ne p w h (inl e) = absurd (ne (sym p ∙ e))
after_popped s popped front rest undefined b ne p w h (inr e) = inr (sym h ∙ e)
after_popped s popped front rest spent b ne p w h k = tt
after_popped s popped front rest (returned after) b ne p w h (done, part, queue, on_wire, rests) = (
  front ∷ done,
  part,
  b ∙ ap (λ bs. front ∷ bs) (sym p ∙ queue),
  on_wire
      ∙ rw w (append_assoc s.wire front (concat done ++ part))
      ∙ ap (λ x. s.wire ++ x) (sym (append_assoc front (concat done) part)),
  rests,
)

-- The front gone and on the wire, and nothing more.
first_gone :
    (s after : Socket) (front : Bytes) (rest : List Bytes)
    → s.write_buffers ≡ front ∷ rest
    → after.write_buffers ≡ rest
    → after.wire ≡ s.wire ++ front
    → IsSent s after
first_gone s after front rest b a w = (
  front ∷ [],
  [],
  b ∙ ap (λ bs. front ∷ bs) (sym a),
  w ∙ ap (λ x. s.wire ++ x) (sym (append-nil front) ∙ sym (append-nil (front ++ []))),
  inl refl,
)

part_left :
    (s after : Socket) (sz : ℕ) (front : Bytes) (rest : List Bytes)
    → s.write_buffers ≡ front ∷ rest
    → after.write_buffers ≡ s.write_buffers
    → after.wire ≡ s.wire ++ take sz front
    → sz < length front
    → IsSent s after
part_left s after sz front rest b a w h =
    ([], take sz front, sym a, w, inr (front, rest, sz, a ∙ b, h, refl))

pub nonempty : (bs : List Bytes) → not (length bs == 0) ≡ true → bs ≢ []
nonempty bs h e = absurd (ground (arith, h, ap length e))

module _ (handler : SocketHandler) (send : Bytes → Bytes → Sent)
    (completes : (s : Socket) → IsAside s (handler.completing s)) where
  -- The front on the wire, as a whole or in part.
  after_front-Sends :
      (again : Socket → Outcome) (sz : ℕ) (front : Bytes) (rest : List Bytes) (s told : Socket)
      → ((t : Socket) → Sends t (again t))
      → s.write_buffers ≡ front ∷ rest
      → told.has_handler ≡ s.has_handler
      → told.write_buffers ≡ s.write_buffers
      → told.wire ≡ s.wire ++ take sz front
      → Sends s (after_front handler again sz (front ∷ rest) told)
  unfolding after_front complete
  after_front-Sends again sz front rest s told sends b h same w =
      let popped : Socket = record told { write_buffers = rest } in
      let whole : ltb sz (length front) ≡ false → told.wire ≡ s.wire ++ front =
        λ all. w ∙ ap (λ x. s.wire ++ x) (take_all sz front (ground (arith, all))) in
      if_cases (Sends s) (ltb sz (length front))
        (λ short.
          part_left s (record told { bytes_written = (told.bytes_written + sz) % 2 ^ 64 }) sz front
            rest b same w (ground (arith, short)))
        (λ all.
          if_cases (Sends s) (not (length rest == 0))
            (λ more.
              if_cases (Sends s) told.closing
                (λ c. first_gone s popped front rest b refl (whole all))
                (λ c.
                  after_popped s popped front rest (again popped) b (nonempty rest more) refl
                    (whole all) h (sends popped)))
            (λ last.
              if_cases (Sends s) told.is_finished
                (λ f.
                  if_cases (Sends s) told.has_handler
                    (λ g.
                      let (kept, same_wire) = completes popped in
                      first_gone s (handler.completing popped) front rest b kept
                        (same_wire ∙ whole all))
                    (λ g. inr (sym h ∙ g)))
                (λ f. first_gone s popped front rest b refl (whole all))))

  of_sent-Sends :
      (again : Socket → Outcome) (front : Bytes) (rest : List Bytes) (s : Socket) (answer : Sent)
      → ((t : Socket) → Sends t (again t))
      → s.write_buffers ≡ front ∷ rest
      → Sends s (of_sent handler send again front s answer)
  unfolding of_sent bytes_written
  of_sent-Sends again front rest s (sent sz) sends b =
      let told : Socket = record s { wire = s.wire ++ take sz front } in
      subst (λ bs. Sends s (after_front handler again sz bs told)) (sym b)
        (after_front-Sends again sz front rest s told sends b refl refl refl)
  of_sent-Sends again front rest s (failed ec) sends b =
      if_cases (Sends s) (not (suc ec == 0))
        (λ e. IsAside-IsSent s (error (suc ec) s) (error-IsAside (suc ec) s))
        (λ e. absurd (ground (arith, e)))

  send_front-Sends :
      (again : Socket → Outcome) (bs : List Bytes) (s : Socket)
      → ((t : Socket) → Sends t (again t))
      → s.write_buffers ≡ bs
      → Sends s (send_front handler send again bs s)
  unfolding send_front
  send_front-Sends again [] s sends b = inl b
  send_front-Sends again (front ∷ rest) s sends b =
      if_cases (Sends s) s.synchronous_write
        (λ e. of_sent-Sends again front rest s (send s.wire front) sends b)
        (λ e. IsAside-IsSent s (record s { requests = s.requests ++ front ∷ [] }) (refl, refl))

  -- If the handler's completing leaves the buffers and the wire as they are: where writing returns, the
  -- buffers that it took off the front stand on the wire, each once and in order; behind them may stand
  -- a part of the buffer that is then the first; and no other byte. Unless its fuel runs out it
  -- returns, but for a socket without a buffer or without a handler, where it may call what is not
  -- there.
  pub writing-Sends : (fuel : ℕ) (s : Socket) → Sends s (writing handler send fuel s)
  unfolding writing
  writing-Sends zero s = tt
  writing-Sends (suc fuel) s =
      if_cases (Sends s) s.closing (λ c. IsAside-IsSent s s (refl, refl))
        (λ c.
          send_front-Sends (λ t. writing handler send fuel t) s.write_buffers s
            (λ t. writing-Sends fuel t) refl)
