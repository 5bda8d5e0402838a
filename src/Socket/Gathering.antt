-- ===== src/Socket/Gathering.antt =====
-- What a synchronous socket gathers while its handler is not ready, and what peekData then gives.
use drumlin.Prelude.{
  ◌≡◌, refl, sym, ap, ◌∙◌, subst, true, false, not, List, [], ◌∷◌, ◌++◌, append-nil, append_assoc,
  if_cases, length, take, drop, take-append, Bytes, nat_eq, bytes_eq,
}
use drumlin.Socket.Flushing.{apart}
use drumlin.Socket.{Socket, SocketHandler, Received, received, process, take_in, reading}

abbrev pub received_all : List Bytes → List Received
received_all [] = []
received_all (b ∷ bs) = received b ∷ received_all bs

-- What take_in leaves: the bytes are queued, and the mode is as it was.
abbrev Gathers : Bytes → Socket → Socket → Type 0
Gathers got s after =
    (after.read_buffers ≡ s.read_buffers ++ got ∷ [])
    × (after.closing ≡ s.closing)
    × (after.synchronous_read ≡ s.synchronous_read)
    × (after.is_finished ≡ s.is_finished)

module _ (handler : SocketHandler) (byte_buffer : Bytes → Bytes)
    (copies : (t : Bytes) → byte_buffer t ≡ t)
    (waits : (s : Socket) → handler.ready_process s ≡ (s, false)) where
  process_waits : (s : Socket) → process handler s ≡ s
  unfolding process
  process_waits s = if_cases (λ o. o ≡ s) (not s.has_handler) (λ e. refl) (λ e. rw (waits s))

  take_in-Gathers :
      (got rest : Bytes) (s : Socket)
      → Gathers got s
          (take_in handler byte_buffer (length got) (record s { recv_buf = got ++ rest }))
  unfolding take_in
  take_in-Gathers got rest s =
      subst (Gathers got s) (sym (process_waits _))
        (rw (copies (take (length got) (got ++ rest)), take-append got rest), refl, refl, refl)

  -- A synchronous socket that is neither closing nor finished, and whose handler is not ready, queues all
  -- that arrives, in order, behind what it has.
  reading_gathers :
      (bs : List Bytes) (s : Socket)
      → s.closing ≡ false
      → s.synchronous_read ≡ true
      → s.is_finished ≡ false
      → (reading handler byte_buffer (received_all bs) s).read_buffers ≡ s.read_buffers ++ bs
  unfolding reading
  reading_gathers [] s c r f =
      if_cases (λ (o : Socket). o.read_buffers ≡ s.read_buffers ++ []) s.closing
        (λ e. sym (append-nil s.read_buffers)) (λ e. sym (append-nil s.read_buffers))
  reading_gathers (b ∷ bs) s c r f =
      let fed : Socket = record s { recv_buf = b ++ drop (length b) s.recv_buf } in
      let taken = take_in handler byte_buffer (length b) fed in
      let (queued, c', r', f') = take_in-Gathers b (drop (length b) s.recv_buf) s in
      let P : Socket → Type 0 = λ (o : Socket). o.read_buffers ≡ s.read_buffers ++ b ∷ bs in
      if_cases P s.closing (λ e. absurd (apart (sym e ∙ c)))
        (λ e.
          if_cases P s.synchronous_read
            (λ g.
              if_cases P (not taken.is_finished)
                (λ h.
                  reading_gathers bs taken (c' ∙ c) (r' ∙ r) (f' ∙ f)
                  ∙ ap (λ q. q ++ bs) queued
                  ∙ append_assoc s.read_buffers (b ∷ []) bs)
                (λ h. absurd (apart (sym (ap not (f' ∙ f)) ∙ h))))
            (λ g. absurd (apart (sym r ∙ g))))
