-- ===== src/Socket/Flushing.antt =====
-- A synchronous socket with a handler, on a wire that accepts whole buffers, sends all that is queued.
use drumlin.Prelude.{
  ℕ, zero, suc, ◌<◌, ◌≡◌, refl, sym, ap, ◌∙◌, subst, ◌≢◌, true, false, not, List, [], ◌∷◌, ◌++◌,
  append-nil, append_assoc, arith, ltb, ◌==◌, if_cases, length, take, take_all, Bytes, nat_eq,
  bytes_eq,
}
use drumlin.Socket.{
  Socket, SocketHandler, Sent, sent, Outcome, undefined, spent, returned, concat, complete,
  after_front, bytes_written, of_sent, send_front, writing,
}
use drumlin.Socket.Sending.{nonempty}

pub apart : true ≢ false
apart h = cc

-- What the calls and completing leave of a socket that stays in its mode.
pub record Keeps (s after : Socket) : Type 0 where
  pub closing : after.closing ≡ s.closing
  pub synchronous_write : after.synchronous_write ≡ s.synchronous_write
  pub has_handler : after.has_handler ≡ s.has_handler

abbrev pub IsCalm : SocketHandler → Type 0
IsCalm handler =
    (s : Socket)
    → Keeps s (handler.completing s)
      × ((handler.completing s).write_buffers ≡ s.write_buffers)
      × ((handler.completing s).wire ≡ s.wire)

abbrev pub Flushes : Socket → List Bytes → Outcome → Type 0
Flushes s bs (returned after) =
    Keeps s after × (after.write_buffers ≡ []) × (after.wire ≡ s.wire ++ concat bs)
Flushes s bs _ = true ≡ false

Keeps-refl : (s : Socket) → Keeps s s
Keeps-refl s = record { closing = refl; synchronous_write = refl; has_handler = refl }

Keeps-trans : (s t u : Socket) → Keeps s t → Keeps t u → Keeps s u
Keeps-trans s t u h k = record {
  closing = k.closing ∙ h.closing;
  synchronous_write = k.synchronous_write ∙ h.synchronous_write;
  has_handler = k.has_handler ∙ h.has_handler;
}

-- The front on the wire, and the rest flushed behind it.
flushed_behind :
    (s popped : Socket) (front : Bytes) (rest : List Bytes) (o : Outcome)
    → Keeps s popped
    → popped.wire ≡ s.wire ++ front
    → Flushes popped rest o
    → Flushes s (front ∷ rest) o
flushed_behind s popped front rest undefined k w h = h
flushed_behind s popped front rest spent k w h = h
flushed_behind s popped front rest (returned after) k w (keeps, b, on_wire) = (
  Keeps-trans s popped after k keeps,
  b,
  on_wire ∙ rw w (append_assoc s.wire front (concat rest)),
)

length-zero : (bs : List Bytes) → not (length bs == 0) ≡ false → bs ≡ []
length-zero [] h = refl
length-zero (b ∷ bs) h = absurd (ground (arith, h))

module _ (handler : SocketHandler) (send : Bytes → Bytes → Sent) (calm : IsCalm handler)
    (whole : (w b : Bytes) → send w b ≡ sent (length b)) where
  after_front-Flushes :
      (again : Socket → Outcome) (front : Bytes) (rest : List Bytes) (s told : Socket)
      → s.closing ≡ false
      → s.has_handler ≡ true
      → Keeps s told
      → told.wire ≡ s.wire ++ front
      → ((t : Socket) → t.write_buffers ≡ rest → Keeps s t → rest ≢ [] → Flushes t rest (again t))
      → Flushes s (front ∷ rest) (after_front handler again (length front) (front ∷ rest) told)
  unfolding after_front complete
  after_front-Flushes again front rest s told open_still has keeps w flushes =
      let popped : Socket = record told { write_buffers = rest } in
      let popped-Keeps : Keeps s popped = record {
        closing = keeps.closing;
        synchronous_write = keeps.synchronous_write;
        has_handler = keeps.has_handler;
      } in
      let P = Flushes s (front ∷ rest) in
      let at_end : rest ≡ [] → told.wire ≡ s.wire ++ concat (front ∷ rest) = λ e.
        w
        ∙ ap (λ x. s.wire ++ x) (sym (append-nil front))
        ∙ ap (λ bs. s.wire ++ concat (front ∷ bs)) (sym e) in
      if_cases P (ltb (length front) (length front)) (λ e. absurd (ground (arith, e)))
        (λ e.
          if_cases P (not (length rest == 0))
            (λ more.
              if_cases P told.closing (λ c. absurd (apart (sym c ∙ keeps.closing ∙ open_still)))
                (λ c.
                  flushed_behind s popped front rest (again popped) popped-Keeps w
                    (flushes popped refl popped-Keeps (nonempty rest more))))
            (λ last.
              let nothing = length-zero rest last in
              if_cases P told.is_finished
                (λ f.
                  if_cases P told.has_handler
                    (λ g.
                      let (same, kept, same_wire) = calm popped in
                      (
                        Keeps-trans s popped (handler.completing popped) popped-Keeps same,
                        kept ∙ nothing,
                        same_wire ∙ at_end nothing,
                      ))
                    (λ g. absurd (apart (sym has ∙ sym keeps.has_handler ∙ g))))
                (λ f. (popped-Keeps, nothing, at_end nothing))))

  of_sent-Flushes :
      (again : Socket → Outcome) (front : Bytes) (rest : List Bytes) (s : Socket) (answer : Sent)
      → answer ≡ sent (length front)
      → s.write_buffers ≡ front ∷ rest
      → s.closing ≡ false
      → s.has_handler ≡ true
      → ((t : Socket) → t.write_buffers ≡ rest → Keeps s t → rest ≢ [] → Flushes t rest (again t))
      → Flushes s (front ∷ rest) (of_sent handler send again front s answer)
  unfolding of_sent bytes_written
  of_sent-Flushes again front rest s answer e b open_still has flushes =
      let told : Socket = record s { wire = s.wire ++ take (length front) front } in
      let keeps : Keeps s told = record {
        closing = refl;
        synchronous_write = refl;
        has_handler = refl;
      } in
      subst (λ x. Flushes s (front ∷ rest) (of_sent handler send again front s x)) (sym e)
        (subst (λ bs. Flushes s (front ∷ rest) (after_front handler again (length front) bs told))
          (sym b)
          (after_front-Flushes again front rest s told open_still has keeps
            (ap (λ x. s.wire ++ x) (take_all (length front) front (omega arith))) flushes))

  send_front-Flushes :
      (again : Socket → Outcome) (bs : List Bytes) (s : Socket)
      → s.write_buffers ≡ bs
      → bs ≢ []
      → s.closing ≡ false
      → s.has_handler ≡ true
      → s.synchronous_write ≡ true
      → ((t : Socket) (rest : List Bytes)
          → t.write_buffers ≡ rest
          → length rest < length bs
          → Keeps s t
          → rest ≢ []
          → Flushes t rest (again t))
      → Flushes s bs (send_front handler send again bs s)
  unfolding send_front
  send_front-Flushes again [] s b ne open_still has sync flushes = absurd (ne refl)
  send_front-Flushes again (front ∷ rest) s b ne open_still has sync flushes =
      if_cases (Flushes s (front ∷ rest)) s.synchronous_write
        (λ e.
          of_sent-Flushes again front rest s (send s.wire front) (whole s.wire front) b open_still
            has (λ t q. flushes t rest q (omega arith)))
        (λ e. absurd (apart (sym sync ∙ e)))

  pub writing-Flushes :
      (fuel : ℕ) (s : Socket) (bs : List Bytes)
      → s.write_buffers ≡ bs
      → length bs < fuel
      → bs ≢ []
      → s.closing ≡ false
      → s.has_handler ≡ true
      → s.synchronous_write ≡ true
      → Flushes s bs (writing handler send fuel s)
  unfolding writing
  writing-Flushes zero s bs b h ne open_still has sync = absurd (omega arith)
  writing-Flushes (suc fuel) s bs b h ne open_still has sync =
      if_cases (Flushes s bs) s.closing (λ c. absurd (apart (sym c ∙ open_still)))
        (λ c.
          subst (λ x. Flushes s bs (send_front handler send (λ t. writing handler send fuel t) x s))
            (sym b)
            (send_front-Flushes (λ t. writing handler send fuel t) bs s b ne open_still has sync
              (λ t rest q shorter keeps left.
                writing-Flushes fuel t rest q (omega (arith, h, shorter)) left
                  (keeps.closing ∙ open_still) (keeps.has_handler ∙ has)
                  (keeps.synchronous_write ∙ sync))))
