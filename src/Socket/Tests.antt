-- ===== src/Socket/Tests.antt =====
-- Sockets with a handler that never is ready, on a wire that accepts all, and on one that accepts two
-- bytes at a time.
use drumlin.Prelude.{
  inl, inr, ℕ, ◌≡◌, refl, Bool, true, false, some, [], ◌∷◌, arith, Bytes, nat_eq, bytes_eq,
}
use drumlin.Socket.{Socket, SocketHandler, Sent, sent, writing}
use drumlin.Socket.{returned}
use drumlin.Socket.Requests.{ends_all, ends_all-requests}
use drumlin.Socket.Sending.{Sends, writing-Sends}
use drumlin.Socket.Ending.{IsDone, writing-IsDone}
use drumlin.Socket.Peeking.{peek_data, peek_data_coalesces}

abbrev idle_handler : SocketHandler
idle_handler = record {
  process_transmission = λ s. (s, false);
  ready_process = λ s. (s, false);
  reply = λ s. (s, false);
  completing = λ s. s;
  sort = λ bs. bs;
}

abbrev plain : Socket
plain = record {
  synchronous_read = true;
  synchronous_write = true;
  bytes_transferred = 0;
  recv_buf = [];
  bytes_written = 0;
  write_buffers = (1 ∷ 2 ∷ []) ∷ (3 ∷ 4 ∷ 5 ∷ []) ∷ [];
  read_buffers = (6 ∷ []) ∷ (7 ∷ 8 ∷ []) ∷ [];
  is_finished = false;
  closing = false;
  num_bytes = 5;
  has_handler = true;
  has_connection = false;
  requests = [];
  receives = 0;
  wire = [];
  errors = [];
}

abbrev send_two : Bytes → Bytes → Sent
send_two w b = sent 2

abbrev has_memory : ℕ → Bool
has_memory n = true

writing-Sends_example : Sends plain (writing idle_handler send_two 3 plain)
writing-Sends_example = writing-Sends idle_handler send_two (λ s. (refl, refl)) 3 plain

writing-IsDone_example : IsDone (writing idle_handler send_two 3 plain)
writing-IsDone_example = writing-IsDone idle_handler send_two 3 plain (omega arith)

peek_data_coalesces_example :
    peek_data idle_handler has_memory 3 plain
    ≡ some (record plain { read_buffers = [] }, 6 ∷ 7 ∷ 8 ∷ [])
peek_data_coalesces_example =
    peek_data_coalesces idle_handler has_memory 3 plain plain.read_buffers (inr (inl refl, refl))
      refl refl

-- The default mode, with the first buffer under way.
abbrev asynchronous : Socket
asynchronous = record plain { synchronous_write = false; requests = (1 ∷ 2 ∷ []) ∷ [] }

ends_all-requests_example :
    (after : Socket) × (ends_all idle_handler send_two
        ((1 ∷ 2 ∷ []) ∷ (3 ∷ 4 ∷ 5 ∷ []) ∷ [])
        asynchronous
      ≡ returned after)
    × (after.write_buffers ≡ [])
    × (after.requests ≡ (1 ∷ 2 ∷ []) ∷ (3 ∷ 4 ∷ 5 ∷ []) ∷ [])
ends_all-requests_example =
    ends_all-requests idle_handler send_two ((3 ∷ 4 ∷ 5 ∷ []) ∷ []) (1 ∷ 2 ∷ []) [] asynchronous
      (record { asynchronous = refl; not_closing = refl; unfinished = refl }) refl refl
