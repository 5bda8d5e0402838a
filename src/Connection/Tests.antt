-- ===== src/Connection/Tests.antt =====
-- A server whose third accept ends with an error.
use drumlin.Prelude.{◌≡◌, refl, true, some, [], ◌∷◌, ◌++◌, nat_eq, bytes_eq}
use drumlin.Connection.{AsioServer, make_server, start, handle_accept, end_accept, serve}
use drumlin.Connection.Accepting.{IsPartition, clean, waiting, serve-IsPartition}

begins : start (make_server 5) ≡ some (waiting [] 5)
unfolding start make_server
begins = refl

abbrev served : AsioServer
served = record { is_open = true; pending = []; started = 5 ∷ 6 ∷ []; deleted = 7 ∷ []; next = 8 }

ends : serve (clean 2 ++ true ∷ []) (waiting [] 5) ≡ some served
unfolding serve end_accept handle_accept start
ends = refl

serve-IsPartition_example : IsPartition 5 served
serve-IsPartition_example =
    serve-IsPartition 5 (clean 2 ++ true ∷ []) (waiting [] 5) served begins ends
