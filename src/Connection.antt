-- ===== src/Connection.antt =====
-- connection.h and connection.cpp: a server that accepts connections, and the thread of the io service.
-- A connection is its address, `next` the next that `new` gives. The accepts that wait stand in
-- `pending`, in order; asio ends the first of them, with or without an error. What a connection does
-- once it is started, the endpoints and the log are left out, and so is AsioClient, which only calls
-- asio.
pub mod Accepting
mod Tests
use drumlin.Prelude.{
  ℕ, ◌+◌, Bool, true, false, not, Option, none, some, List, [], ◌∷◌, ◌++◌, ◌==◌, if◌then◌else◌,
  nat_eq, bytes_eq,
}

pub record AsioServer : Type 0 where
  pub is_open : Bool
  pub pending : List ℕ
  pub started : List ℕ
  pub deleted : List ℕ
  pub next : ℕ

-- The constructor of AsioServer, with the address of the first connection.
pub make_server : ℕ → AsioServer
make_server next = record { is_open = true; pending = []; started = []; deleted = []; next = next }

-- AsioServer::start; `none` where listen throws, on an acceptor that is closed.
pub start : AsioServer → Option AsioServer
start server =
    if server.is_open
    then some
        (record server { pending = server.pending ++ server.next ∷ []; next = server.next + 1 })
    else none

-- AsioServer::handle_accept
pub handle_accept : ℕ → Bool → AsioServer → Option AsioServer
unfolding start
handle_accept new_connection error server =
    if not error
    then start (record server { started = server.started ++ new_connection ∷ [] })
    else some (record server { deleted = server.deleted ++ new_connection ∷ [] })

-- AsioServer::stop
pub stop : AsioServer → AsioServer
stop server = record server { is_open = false }

pub end_accept : Bool → List ℕ → AsioServer → Option AsioServer
unfolding handle_accept
end_accept error [] server = some server
end_accept error (c ∷ pending) server = handle_accept c error (record server { pending = pending })

-- The ends of accepts, one after the other, each with an error or without; none where none waits.
pub serve : List Bool → AsioServer → Option AsioServer
unfolding end_accept
serve [] server = some server
serve (error ∷ errors) server = elim (end_accept error server.pending server) [
  | none ↦ none
  | some after ↦ serve errors after
]

-- The thread of the io service, a number for each that is made; 0 where there is none.
pub record IoThread : Type 0 where
  pub io_thread : ℕ
  pub made : ℕ
  pub stopped : List ℕ

-- start_io
unfoldable pub start_io : IoThread → IoThread
start_io io =
    if not (io.io_thread == 0)
    then io
    else record io { io_thread = io.made + 1; made = io.made + 1 }

-- stop_io; without a thread it calls through a null pointer.
unfoldable pub stop_io : IoThread → Option IoThread
stop_io io =
    if io.io_thread == 0
    then none
    else some (record io { io_thread = 0; stopped = io.stopped ++ io.io_thread ∷ [] })
