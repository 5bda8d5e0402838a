-- ===== src/Socket/Requests.antt =====
-- What an asynchronous socket asks asio to send, as asio ends one send after the other.
use drumlin.Prelude.{
  ◌≡◌, refl, sym, ap, ◌∙◌, subst, false, not, List, [], ◌∷◌, ◌++◌, append_assoc, arith, ltb, ◌==◌,
  if_cases, length, Bytes, nat_eq, bytes_eq,
}
use drumlin.Socket.{
  Socket, SocketHandler, Sent, Outcome, undefined, spent, returned, after_front, bytes_written,
  send_front, writing,
}
use drumlin.Socket.Flushing.{apart}

-- An asynchronous socket that is neither closing nor finished.
pub record IsSending (s : Socket) : Type 0 where
  pub asynchronous : s.synchronous_write ≡ false
  pub not_closing : s.closing ≡ false
  pub unfinished : s.is_finished ≡ false

abbrev popped : Socket → List Bytes → Socket
popped s rest = record s { write_buffers = rest }

abbrev asked : Socket → Bytes → List Bytes → Socket
asked s b rest = record s { write_buffers = b ∷ rest; requests = s.requests ++ b ∷ [] }

module _ (handler : SocketHandler) (send : Bytes → Bytes → Sent) where
  -- asio ends the send of the front, as a whole, and then the ones that follow.
  abbrev pub ends_all : List Bytes → Socket → Outcome
  ends_all [] s = returned s
  ends_all (front ∷ bs) s =
      elim (bytes_written handler (λ t. writing handler send 1 t) 0 (length front) s) [
        | undefined ↦ undefined
        | spent ↦ spent
        | returned after ↦ ends_all bs after
      ]

  writing-asks :
      (b : Bytes) (rest : List Bytes) (s : Socket)
      → IsSending s
      → writing handler send 1 (popped s (b ∷ rest)) ≡ returned (asked s b rest)
  unfolding writing send_front
  writing-asks b rest s h =
      if_cases (λ o. o ≡ returned (asked s b rest)) s.closing
        (λ e. absurd (apart (sym e ∙ h.not_closing)))
        (λ e.
          if_cases (λ o. o ≡ returned (asked s b rest)) s.synchronous_write
            (λ f. absurd (apart (sym f ∙ h.asynchronous))) (λ f. refl))

  -- The end of the last send.
  last_end :
      (front : Bytes) (s : Socket)
      → IsSending s
      → s.write_buffers ≡ front ∷ []
      → bytes_written handler (λ t. writing handler send 1 t) 0 (length front) s
        ≡ returned (popped s [])
  unfolding bytes_written after_front
  last_end front s h q =
      let again : Socket → Outcome = λ t. writing handler send 1 t in
      let P : Outcome → Type 0 = λ o. o ≡ returned (popped s []) in
      subst (λ bs. P (after_front handler again (length front) bs s)) (sym q)
        (if_cases P (ltb (length front) (length front)) (λ e. absurd (ground (arith, e)))
          (λ e. if_cases P s.is_finished (λ f. absurd (apart (sym f ∙ h.unfinished))) (λ f. refl)))

  -- The end of a send with a buffer behind.
  next_end :
      (front b : Bytes) (rest : List Bytes) (s : Socket)
      → IsSending s
      → s.write_buffers ≡ front ∷ b ∷ rest
      → bytes_written handler (λ t. writing handler send 1 t) 0 (length front) s
        ≡ returned (asked s b rest)
  unfolding bytes_written after_front
  next_end front b rest s h q =
      let again : Socket → Outcome = λ t. writing handler send 1 t in
      let P : Outcome → Type 0 = λ o. o ≡ returned (asked s b rest) in
      subst (λ bs. P (after_front handler again (length front) bs s)) (sym q)
        (if_cases P (ltb (length front) (length front)) (λ e. absurd (ground (arith, e)))
          (λ e.
            if_cases P (not (length (b ∷ rest) == 0))
              (λ g.
                if_cases P s.closing (λ f. absurd (apart (sym f ∙ h.not_closing)))
                  (λ f. writing-asks b rest s h))
              (λ g. absurd (ground (arith, g)))))

  -- An asynchronous socket that is neither closing nor finished, whose first buffer is with asio: as asio
  -- ends each send, as a whole, the socket hands the next buffer over, until it has handed over all,
  -- each once and in order, and none is left.
  pub ends_all-requests :
      (bs : List Bytes) (front : Bytes) (before_it : List Bytes) (s : Socket)
      → IsSending s
      → s.write_buffers ≡ front ∷ bs
      → s.requests ≡ before_it ++ front ∷ []
      → (after : Socket) × (ends_all (front ∷ bs) s ≡ returned after)
        × (after.write_buffers ≡ [])
        × (after.requests ≡ before_it ++ front ∷ bs)
  ends_all-requests [] front before_it s h q r = (
    popped s [],
    ap (λ o. elim o [ undefined ↦ undefined | spent ↦ spent | returned after ↦ ends_all [] after ])
        (last_end front s h q),
    refl,
    r,
  )
  ends_all-requests (b ∷ bs) front before_it s h q r =
      let later = asked s b bs in
      let still : IsSending later = record {
        asynchronous = h.asynchronous;
        not_closing = h.not_closing;
        unfinished = h.unfinished;
      } in
      let (after, ran, empty, all) =
        ends_all-requests bs b (before_it ++ front ∷ []) later still refl
          (ap (λ rs. rs ++ b ∷ []) r) in
      (
        after,
        ap
              (λ o. elim o [
                | undefined ↦ undefined
                | spent ↦ spent
                | returned t ↦ ends_all (b ∷ bs) t
              ])
              (next_end front b bs s h q)
            ∙ ran,
        empty,
        all ∙ append_assoc before_it (front ∷ []) (b ∷ bs),
      )
