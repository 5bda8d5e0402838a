-- ===== src/Socket.antt =====
-- socket.h, and SocketAdapter::error of socket.cpp: a socket's two queues of buffers. A buffer is the
-- list of its bytes, as ByteBuffer, which is not in the repository, copies them: `byte_buffer`. What
-- asio and the handler of the socket do are parameters: `send` says what becomes of a buffer that is
-- sent, given the bytes that are on the wire; `arrivals` are the results of the receives that follow, and
-- a receive without one waits. `requests` and `receives` record the asynchronous calls, `wire` the bytes
-- that the synchronous calls sent, `errors` the codes that went to the connection or else to the handler. The locks,
-- the tag and the log are left out; sizes of buffers are below 2 ^ 64. Code 0 is success.
pub mod Sending
pub mod Ending
pub mod Flushing
pub mod Peeking
pub mod Requests
pub mod Gathering
mod Tests
use drumlin.Prelude.{
  ℕ, zero, suc, ◌+◌, ◌%◌, ◌^◌, Bool, true, false, not, List, [], ◌∷◌, ◌++◌, ltb, ◌==◌,
  if◌then◌else◌, length, take, drop, Bytes, nat_eq, bytes_eq,
}

pub record Socket : Type 0 where
  pub synchronous_read : Bool
  pub synchronous_write : Bool
  pub bytes_transferred : ℕ
  pub recv_buf : Bytes
  pub bytes_written : ℕ
  pub write_buffers : List Bytes
  pub read_buffers : List Bytes
  pub is_finished : Bool
  pub closing : Bool
  pub num_bytes : ℕ
  pub has_handler : Bool
  pub has_connection : Bool
  pub requests : List Bytes
  pub receives : ℕ
  pub wire : Bytes
  pub errors : List (Bool × ℕ)

-- What `send` does with a buffer: so many bytes, or the throw of an error, by its code less one.
pub data Sent : Type 0 where
  sent failed : ℕ → Sent

-- What a receive gives: bytes, or an error, by its code less one.
pub data Received : Type 0 where
  received : Bytes → Received
  lost : ℕ → Received

-- A call: it reads what is not there, its fuel runs out, or it returns.
pub data Outcome : Type 0 where
  undefined spent : Outcome
  returned : Socket → Outcome

-- The calls of SocketHandler that the socket makes, and their effect on it.
pub record SocketHandler : Type 0 where
  pub process_transmission : Socket → Socket × Bool
  pub ready_process : Socket → Socket × Bool
  pub reply : Socket → Socket × Bool
  pub completing : Socket → Socket
  pub sort : List Bytes → List Bytes

-- Socket::setClosing
unfoldable pub set_closing : Bool → Socket → Socket
set_closing c s = record s { closing = c }

-- Socket::setFinished
unfoldable pub set_finished : Bool → Socket → Socket
set_finished f s = record s { is_finished = f }

-- SocketAdapter<tcp>::error
pub error : ℕ → Socket → Socket
error ec s =
    if s.has_connection
    then record s { errors = s.errors ++ (true, ec) ∷ [] }
    else if s.has_handler
    then record s { errors = s.errors ++ (false, ec) ∷ [] }
    else s

-- Socket::writeQueueLength
unfoldable pub write_queue_length : Socket → ℕ
write_queue_length s = length s.write_buffers

-- The bytes of several buffers, one after the other.
abbrev pub concat : List Bytes → Bytes
concat [] = []
concat (b ∷ bs) = b ++ concat bs

module _ (byte_buffer : Bytes → Bytes) where
  -- Socket::write, both overloads.
  unfoldable pub write : Bytes → Bool → Socket → Socket × ℕ
  write t prepend s =
      let num_bytes = (s.num_bytes + length t) % 2 ^ 64 in
      let buffers =
        if prepend
        then byte_buffer t ∷ s.write_buffers
        else s.write_buffers ++ byte_buffer t ∷ [] in
      (record s { num_bytes = num_bytes; write_buffers = buffers }, num_bytes)

module _ (handler : SocketHandler) where
  -- `m_handler->completing(this)`
  pub complete : Socket → Outcome
  complete s = if s.has_handler then returned (handler.completing s) else undefined

  -- bytesWritten past its first return; `again` is the call of writing(). Without a buffer `d` wraps.
  pub after_front : (Socket → Outcome) → ℕ → List Bytes → Socket → Outcome
  unfolding complete
  after_front again sz [] s = if s.closing then returned s else again s
  after_front again sz (front ∷ rest) s =
      let popped = record s { write_buffers = rest } in
      if ltb sz (length front)
      then returned (record s { bytes_written = (s.bytes_written + sz) % 2 ^ 64 })
      else if not (length rest == 0)
      then (if s.closing then returned popped else again popped)
      else if s.is_finished
      then complete popped
      else returned popped

  -- Socket::bytesWritten
  unfoldable pub bytes_written : (Socket → Outcome) → ℕ → ℕ → Socket → Outcome
  unfolding after_front error
  bytes_written again ec sz s =
      if not (ec == 0) then returned (error ec s) else after_front again sz s.write_buffers s

  module _ (send : Bytes → Bytes → Sent) where
    pub of_sent : (Socket → Outcome) → Bytes → Socket → Sent → Outcome
    unfolding bytes_written
    of_sent again front s (sent sz) =
        bytes_written again 0 sz (record s { wire = s.wire ++ take sz front })
    of_sent again front s (failed ec) = bytes_written again (suc ec) 0 s

    -- writing past its test, on the front of the buffers.
    pub send_front : (Socket → Outcome) → List Bytes → Socket → Outcome
    unfolding of_sent
    send_front again [] s = undefined
    send_front again (front ∷ rest) s =
        if s.synchronous_write
        then of_sent again front s (send s.wire front)
        else returned (record s { requests = s.requests ++ front ∷ [] })

    -- Socket::writing
    unfoldable pub writing : ℕ → Socket → Outcome
    unfolding send_front
    writing zero s = spent
    writing (suc fuel) s =
        if s.closing then returned s else send_front (λ t. writing fuel t) s.write_buffers s

  -- Socket::process
  pub process : Socket → Socket
  unfolding set_finished
  process s =
      if not s.has_handler
      then s
      else (let (asked, ready) = handler.ready_process s in
          let (transmitted, replying) =
            if ready then handler.process_transmission asked else (asked, false) in
          if not replying
          then transmitted
          else (let (replied, finished) = handler.reply transmitted in
              let marked = set_finished finished replied in
              if finished then handler.completing marked else marked))

  module _ (byte_buffer : Bytes → Bytes) where
    -- bytesRead without an error, before it reads on.
    unfoldable pub take_in : ℕ → Socket → Socket
    unfolding process
    take_in sz s = process (record s {
      read_buffers = s.read_buffers ++ byte_buffer (take sz s.recv_buf) ∷ [];
      bytes_transferred = (s.bytes_transferred + sz) % 2 ^ 64;
    })

    -- Socket::reading, with Socket::bytesRead, which it calls on what arrives.
    unfoldable pub reading : List Received → Socket → Socket
    unfolding take_in error
    reading [] s = if s.closing then s else record s { receives = s.receives + 1 }
    reading (lost ec ∷ arrivals) s =
        if s.closing
        then s
        else if s.synchronous_read
        then error (suc ec) s
        else record s { receives = s.receives + 1 }
    reading (received got ∷ arrivals) s =
        let taken =
          take_in (length got) (record s { recv_buf = got ++ drop (length got) s.recv_buf }) in
        let rest = reading arrivals taken in
        if s.closing
        then s
        else if s.synchronous_read
        then (if not taken.is_finished then rest else taken)
        else record s { receives = s.receives + 1 }

    -- Socket::bytesRead, as asio calls it.
    unfoldable pub bytes_read : List Received → ℕ → ℕ → Socket → Socket
    unfolding reading take_in error
    bytes_read arrivals ec sz s =
        if not (ec == 0)
        then error ec s
        else (let taken = take_in sz s in
            if not taken.is_finished then reading arrivals taken else taken)
