-- ===== src/Requests/Found.antt =====
-- A socket that is connecting is found by its pair of addresses.
use patty.Prelude.{
  ==_refl, Bool-cases, List, Option-cases, [], arith, inl, inr, none, refl, some, ℕ, ◌==◌, ◌∷◌, ◌≡◌,
  ◌≢◌, ◌⊎◌,
}
use patty.Frame.{Addr, command}
use patty.Result.{Errno, Result, err, fault, ok, stale}
use patty.Sock.{SockType, State, dgram, established, pending_connect, raw, stream}
use patty.Dict.{Bucket, dict_get, dict_set}
use patty.Sock.Output.{send_xid}
use patty.Dict.Lookup.{dict_get-dict_set}
use patty.Requests.{Object, Server, broken, crash, put, reply, silent}
use patty.Requests.Tables.{
  client_by_sock, client_save_by_sock, hash_addrpair, saved, sock_by_addrpair, sock_by_fd,
  sock_save_remote,
}
use patty.Requests.Connect.{
  connect_refused, connect_route, connect_saved, connect_start, connect_waiting, in_state,
  server_connect, transmit, xid_sent,
}
use patty.Requests.Calls.{next_call}

-- The tables have the socket at `p`, which is connecting to `peer` for `client`.
pub record Connects (client p : ℕ) (peer : Addr) (s : Server) : Type 0 where
  pub obj : Object
  pub in_heap : s.heap p ≡ some obj
  pub remote_is : obj.sock.remote ≡ peer
  pub by_pair : sock_by_addrpair s.socks_remote obj.sock.local peer ≡ p
  pub client_is : client_by_sock s obj ≡ client

-- What connect_start leaves.
record Started (p : ℕ) (before : Object) (s t : Server) : Type 0 where
  obj : Object
  in_heap : t.heap p ≡ some obj
  local_is : obj.sock.local ≡ before.sock.local
  remote_is : obj.sock.remote ≡ before.sock.remote
  fd_is : obj.fd ≡ before.fd
  pairs : t.socks_remote ≡ s.socks_remote
  by_sock : t.clients_by_sock ≡ s.clients_by_sock

xid-Started :
    (m : Result (List ℕ)) (p : ℕ) (obj : Object) (s : Server)
    → (xid_sent p
        (in_state pending_connect obj)
        (transmit m (put s p (in_state pending_connect obj)))).0
      ≡ silent
    → Started p obj s
        (xid_sent p
          (in_state pending_connect obj)
          (transmit m (put s p (in_state pending_connect obj)))).1
unfolding connect_waiting
xid-Started (err e) p obj s h = cc
xid-Started fault p obj s h = cc
xid-Started (ok []) p obj s h = record {
  obj = connect_waiting (in_state pending_connect obj);
  in_heap = rw (==_refl p) refl;
  local_is = refl;
  remote_is = refl;
  fd_is = refl;
  pairs = refl;
  by_sock = refl;
}
xid-Started (ok (b ∷ bytes)) p obj s h = elim (Bool-cases (next_call s.calls).0) [
  | inl e ↦ rw e (record {
    obj = connect_waiting (in_state pending_connect obj);
    in_heap = rw (==_refl p) refl;
    local_is = refl;
    remote_is = refl;
    fd_is = refl;
    pairs = refl;
    by_sock = refl;
  })
  | inr e ↦ absurd (refused (rw e at h))
]
  where
    refused : reply (some stale) ≡ silent → ⊥
    refused k = cc

connect_start-Started :
    (kind : SockType) (p : ℕ) (obj : Object) (s : Server)
    → kind ≢ raw
    → (connect_start kind p obj s).0 ≡ silent
    → Started p obj s (connect_start kind p obj s).1
unfolding connect_start
connect_start-Started dgram p obj s ne h = record {
  obj = in_state established obj;
  in_heap = rw (==_refl p) refl;
  local_is = refl;
  remote_is = refl;
  fd_is = refl;
  pairs = refl;
  by_sock = refl;
}
connect_start-Started stream p obj s ne h =
    xid-Started (send_xid (in_state pending_connect obj).sock command) p obj s h
connect_start-Started raw p obj s ne h = absurd (ne refl)

-- A table after a set that succeeded.
pub saved-dict_get :
    (dict : Bucket) (key p : ℕ)
    → (saved (dict_set dict key p) ≡ none)
      ⊎ ((after : Bucket) × (saved (dict_set dict key p) ≡ some after) × (dict_get after key ≡ p))
saved-dict_get dict key p = elim (Bool-cases ((dict_set dict key p).1 == 0)) [
  | inl e ↦ inl (rw e refl)
  | inr e ↦
      inr ((dict_set dict key p).0, rw e refl, (dict_get-dict_set dict key p (ground (arith, e))).1)
]

connect_saved-Connects :
    (client p : ℕ) (obj : Object) (s : Server)
    → obj.sock.kind ≢ raw
    → (connect_saved client p obj s).0 ≡ silent
    → Connects client p obj.sock.remote (connect_saved client p obj s).1
unfolding connect_saved sock_save_remote client_save_by_sock sock_by_addrpair client_by_sock
connect_saved-Connects client p obj s ne h =
    let local = obj.sock.local in
    elim (saved-dict_get s.socks_remote (hash_addrpair local obj.sock.remote) p) [
      | inl e ↦ absurd (refused (rw e at h))
      | inr (pairs, e, found_pair) ↦ elim (saved-dict_get s.clients_by_sock obj.fd client) [
        | inl k ↦ absurd (refused (rw (e, k) at h))
        | inr (by_sock, k, found_client) ↦
            let t = record (put s p obj) { socks_remote = pairs; clients_by_sock = by_sock } in
            let started = connect_start-Started obj.sock.kind p obj t ne (rw (e, k) at h) in
            rw (e, k)
              (record {
                obj = started.obj;
                in_heap = started.in_heap;
                remote_is = started.remote_is;
                by_pair = rw (started.pairs, started.local_is) found_pair;
                client_is = rw (started.by_sock, started.fd_is) found_client;
              })
      ]
    ]
  where
    refused : broken ≡ silent → ⊥
    refused k = cc

connect_refused-ne_raw :
    (kind : SockType) (state : State) → connect_refused kind state ≡ none → kind ≢ raw
unfolding connect_refused
connect_refused-ne_raw raw state h e = cc
connect_refused-ne_raw dgram state h e = cc
connect_refused-ne_raw stream state h e = cc

-- A connect request that is not answered at once, since the peer is to answer first or the socket has
-- no connection to set up, has put the socket of the descriptor into the tables: its pair of
-- addresses, with the peer of the request, leads to it, and its descriptor to the client.
pub server_connect-Connects :
    (s : Server) (client fd : ℕ) (peer : Addr)
    → (server_connect client (fd, peer) s).0 ≡ silent
    → Connects client (sock_by_fd s.socks_by_fd fd) peer (server_connect client (fd, peer) s).1
unfolding server_connect
server_connect-Connects s client fd peer h =
    let p = sock_by_fd s.socks_by_fd fd in
    elim (Bool-cases (p == 0)) [
      | inl e ↦ absurd (answered_at_once (rw e at h))
      | inr e ↦ elim (Option-cases (s.heap p)) [
        | inl k ↦ absurd (gone (rw (e, k) at h))
        | inr (obj, k) ↦ elim (Option-cases (connect_refused obj.sock.kind obj.sock.state)) [
          | inr (no_, l) ↦ absurd (answered_at_once (rw (e, k, l) at h))
          | inl l ↦ elim (Bool-cases (connect_route s obj.sock == 0)) [
            | inl m ↦ absurd (answered_at_once (rw (e, k, l, m) at h))
            | inr m ↦
                rw (e, k, l, m)
                  (connect_saved-Connects client p _ s
                    (connect_refused-ne_raw obj.sock.kind obj.sock.state l) (rw (e, k, l, m) at h))
          ]
        ]
      ]
    ]
  where
    answered_at_once : {e : Errno} → reply (some e) ≡ silent → ⊥
    answered_at_once k = cc

    gone : crash ≡ silent → ⊥
    gone k = cc
