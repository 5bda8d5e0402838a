-- ===== src/Socket/Ending.antt =====
-- writing() and bytesWritten() of the synchronous mode come to an end.
use drumlin.Prelude.{
  ℕ, zero, suc, ◌<◌, ◌≡◌, refl, sym, ap, subst, true, false, not, List, [], ◌∷◌, ◌++◌, arith, ltb,
  ◌==◌, if_cases, length, take, Bytes, nat_eq, bytes_eq,
}
use drumlin.Socket.{
  Socket, SocketHandler, Sent, sent, failed, Outcome, spent, complete, after_front, bytes_written,
  of_sent, send_front, writing,
}

abbrev pub IsDone : Outcome → Type 0
IsDone spent = true ≡ false
IsDone _ = Unit {0}

module _ (handler : SocketHandler) (send : Bytes → Bytes → Sent) where
  after_front-IsDone :
      (again : Socket → Outcome) (sz : ℕ) (front : Bytes) (rest : List Bytes) (told : Socket)
      → ((t : Socket) → t.write_buffers ≡ rest → IsDone (again t))
      → IsDone (after_front handler again sz (front ∷ rest) told)
  unfolding after_front complete
  after_front-IsDone again sz front rest told ends =
      if_cases IsDone (ltb sz (length front)) (λ e. tt)
        (λ e.
          if_cases IsDone (not (length rest == 0))
            (λ f.
              if_cases IsDone told.closing (λ g. tt)
                (λ g. ends (record told { write_buffers = rest }) refl))
            (λ f.
              if_cases IsDone told.is_finished
                (λ g. if_cases IsDone told.has_handler (λ h. tt) (λ h. tt)) (λ g. tt)))

  of_sent-IsDone :
      (again : Socket → Outcome) (front : Bytes) (rest : List Bytes) (s : Socket) (answer : Sent)
      → ((t : Socket) → t.write_buffers ≡ rest → IsDone (again t))
      → s.write_buffers ≡ front ∷ rest
      → IsDone (of_sent handler send again front s answer)
  unfolding of_sent bytes_written
  of_sent-IsDone again front rest s (sent sz) ends b =
      let told : Socket = record s { wire = s.wire ++ take sz front } in
      subst (λ bs. IsDone (after_front handler again sz bs told)) (sym b)
        (after_front-IsDone again sz front rest told ends)
  of_sent-IsDone again front rest s (failed ec) ends b =
      if_cases IsDone (not (suc ec == 0)) (λ e. tt) (λ e. absurd (ground (arith, e)))

  send_front-IsDone :
      (again : Socket → Outcome) (bs : List Bytes) (s : Socket)
      → s.write_buffers ≡ bs
      → ((t : Socket) → length t.write_buffers < length bs → IsDone (again t))
      → IsDone (send_front handler send again bs s)
  unfolding send_front
  send_front-IsDone again [] s b ends = tt
  send_front-IsDone again (front ∷ rest) s b ends =
      if_cases IsDone s.synchronous_write
        (λ e.
          of_sent-IsDone again front rest s (send s.wire front)
            (λ t q. ends t (omega (arith, ap length q))) b)
        (λ e. tt)

  -- Whatever the wire accepts and the handler does, writing and bytesWritten do not call one another
  -- without end: fuel for each buffer, and one more, is enough.
  pub writing-IsDone :
      (fuel : ℕ) (s : Socket) → length s.write_buffers < fuel → IsDone (writing handler send fuel s)
  unfolding writing
  writing-IsDone zero s h = absurd (omega arith)
  writing-IsDone (suc fuel) s h =
      if_cases IsDone s.closing (λ c. tt)
        (λ c.
          send_front-IsDone (λ t. writing handler send fuel t) s.write_buffers s refl
            (λ t shorter. writing-IsDone fuel t (omega (arith, h, shorter))))
