-- ===== src/Connection/Accepting.antt =====
-- connection.h: which connections a server starts and deletes, and when it stops to accept.
use drumlin.Prelude.{
  ℕ, zero, suc, ◌+◌, ◌≤◌, ◌≡◌, refl, sym, ap, ◌∙◌, subst, Bool, true, false, not, ◌&&◌, Option,
  none, some, List, [], ◌∷◌, ◌++◌, append-nil, append_assoc, arith, ltb, leb, ◌==◌, if◌then◌else◌,
  if_cases, nat_eq, bytes_eq,
}
use mathlib.Core.Option.{some_inj}
use drumlin.Connection.{AsioServer, make_server, start, handle_accept, end_accept, serve}

abbrev pub times : ℕ → List ℕ → ℕ
times p [] = 0
times p (q ∷ qs) = (if q == p then 1 else 0) + times p qs

-- 1 for an address that was given to a connection.
abbrev pub given : ℕ → ℕ → ℕ → ℕ
given first next p = if leb first p && ltb p next then 1 else 0

-- Every connection that was made waits, is started, or is deleted, and just one of them, once.
abbrev pub IsPartition : ℕ → AsioServer → Type 0
IsPartition first server =
    (p : ℕ)
    → times p server.pending + times p server.started + times p server.deleted
      ≡ given first server.next p

times-append : (p q : ℕ) (qs : List ℕ) → times p (qs ++ q ∷ []) ≡ times p qs + times p (q ∷ [])
times-append p q [] = omega arith
times-append p q (r ∷ qs) = omega (arith, times-append p q qs)

given-next :
    (first next p : ℕ)
    → first ≤ next
    → given first (next + 1) p ≡ given first next p + times p (next ∷ [])
given-next first next p h = ground (arith, h)

-- What an accept that ends leaves.
abbrev Keeps : ℕ → Option AsioServer → Type 0
Keeps first none = Unit {0}
Keeps first (some after) = IsPartition first after × (first ≤ after.next)

start-Keeps :
    (first : ℕ) (server : AsioServer)
    → IsPartition first server
    → first ≤ server.next
    → Keeps first (start server)
unfolding start
start-Keeps first server h k =
    if_cases (Keeps first) server.is_open
      (λ e. (
        λ p. omega (
          arith,
          h p,
          times-append p server.next server.pending,
          given-next first server.next p k,
        ),
        omega (arith, k),
      ))
      (λ e. tt)

end_accept-Keeps :
    (first : ℕ) (error : Bool) (pending : List ℕ) (server : AsioServer)
    → server.pending ≡ pending
    → IsPartition first server
    → first ≤ server.next
    → Keeps first (end_accept error pending server)
unfolding end_accept handle_accept
end_accept-Keeps first error [] server e h k = (h, k)
end_accept-Keeps first error (c ∷ pending) server e h k =
    if_cases (Keeps first) (not error)
      (λ f.
        start-Keeps first (record server { pending = pending; started = server.started ++ c ∷ [] })
          (λ p. omega (arith, h p, ap (times p) e, times-append p c server.started)) k)
      (λ f. (λ p. omega (arith, h p, ap (times p) e, times-append p c server.deleted), k))

serve_rest :
    (first : ℕ) (errors : List Bool) (o : Option AsioServer)
    → Keeps first o
    → ((t : AsioServer) → IsPartition first t → first ≤ t.next → Keeps first (serve errors t))
    → Keeps first (elim o [ none ↦ none | some after ↦ serve errors after ])
serve_rest first errors none h k = tt
serve_rest first errors (some t) h k = k t h.0 h.1

serve-Keeps :
    (first : ℕ) (errors : List Bool) (server : AsioServer)
    → IsPartition first server
    → first ≤ server.next
    → Keeps first (serve errors server)
unfolding serve
serve-Keeps first [] server h k = (h, k)
serve-Keeps first (error ∷ errors) server h k =
    serve_rest first errors (end_accept error server.pending server)
      (end_accept-Keeps first error server.pending server refl h k)
      (λ t a b. serve-Keeps first errors t a b)

make_server-IsPartition : (first : ℕ) → IsPartition first (make_server first)
unfolding make_server
make_server-IsPartition first p = ground arith

make_server-above : (first : ℕ) → first ≤ (make_server first).next
unfolding make_server
make_server-above first = omega arith

-- A server that was started, after any accepts that ended: each connection that was made waits, is
-- started or is deleted, just one of these, and once; an address that was not given is in none of the
-- lists.
pub serve-IsPartition :
    (first : ℕ) (errors : List Bool) (server after : AsioServer)
    → start (make_server first) ≡ some server
    → serve errors server ≡ some after
    → IsPartition first after
serve-IsPartition first errors server after h k =
    let begun =
      start-Keeps first (make_server first) (make_server-IsPartition first)
        (make_server-above first) in
    let (fresh, above) = subst (Keeps first) h begun in
    (subst (Keeps first) k (serve-Keeps first errors server fresh above)).0

-- So many accepts without an error.
abbrev pub clean : ℕ → List Bool
clean zero = []
clean (suc n) = false ∷ clean n

abbrev pub counting : ℕ → ℕ → List ℕ
counting m zero = []
counting m (suc n) = m ∷ counting (m + 1) n

-- A server with one accept that waits.
abbrev pub waiting : List ℕ → ℕ → AsioServer
waiting started m = record {
  is_open = true;
  pending = m ∷ [];
  started = started;
  deleted = [];
  next = m + 1;
}

serve-clean :
    (n m : ℕ) (started : List ℕ) (errors : List Bool)
    → serve (clean n ++ errors) (waiting started m)
      ≡ serve errors (waiting (started ++ counting m n) (m + n))
unfolding serve end_accept handle_accept start
serve-clean zero m started errors =
    rw (append-nil started) (ap (λ k. serve errors (waiting started k)) (omega arith))
serve-clean (suc n) m started errors =
    serve-clean n (m + 1) (started ++ m ∷ []) errors
    ∙ ap (λ xs. serve errors (waiting xs (m + 1 + n)))
        (append_assoc started (m ∷ []) (counting (m + 1) n))
    ∙ ap (λ k. serve errors (waiting (started ++ counting m (suc n)) k)) (omega arith)

serve_idle :
    (errors : List Bool) (server : AsioServer)
    → server.pending ≡ []
    → serve errors server ≡ some server
unfolding serve end_accept
serve_idle [] server h = refl
serve_idle (error ∷ errors) server h =
    ap (λ ps. elim (end_accept error ps server) [ none ↦ none | some after ↦ serve errors after ]) h
    ∙ serve_idle errors server h

-- A started server starts each connection whose accept ends without an error, in order, with one
-- accept waiting at a time. The first accept that ends with an error deletes its connection, and from
-- then on no accept waits: the server, though open, starts no connection any more.
serve_until_error :
    (first n : ℕ) (errors : List Bool) (server : AsioServer)
    → start (make_server first) ≡ some server
    → (serve (clean n) server ≡ some (waiting (counting first n) (first + n)))
      × (serve (clean n ++ true ∷ errors) server
          ≡ some (record (waiting (counting first n) (first + n)) {
            pending = [];
            deleted = (first + n) ∷ [];
          }))
unfolding start make_server serve end_accept handle_accept
serve_until_error first n errors server h =
    let begun : server ≡ waiting [] first = some_inj.0 (sym h) in
    let ended : AsioServer = record (waiting (counting first n) (first + n)) {
      pending = [];
      deleted = (first + n) ∷ [];
    } in
    (
      ap (serve (clean n)) begun
          ∙ ap (λ es. serve es (waiting [] first)) (sym (append-nil (clean n)))
          ∙ serve-clean n first [] [],
      ap (serve (clean n ++ true ∷ errors)) begun
          ∙ serve-clean n first [] (true ∷ errors)
          ∙ serve_idle errors ended refl,
    )
