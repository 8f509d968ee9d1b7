-- ===== src/Requests/Keeps/Handlers.antt =====
-- The other requests, and requests one after another.
use patty.Prelude.{
  Bool, Bool-cases, List, Option, Option-cases, [], false, inl, inr, none, refl, some, sym, ℕ, ◌&&◌,
  ◌==◌, ◌∷◌, ◌≡◌,
}
use patty.Frame.{Addr, command}
use patty.Dict.{dict_get}
use patty.Result.{Errno, Result, err, fault, ok}
use patty.Sock.{SockType, dgram, established, pending_connect, raw, stream}
use patty.Sock.Output.{send_disc, send_xid}
use patty.Server.Life.{is_established, is_stream, shut}
use patty.Requests.{Object, Server, fd_set, put}
use patty.Requests.Tables.{
  client_save_by_sock, sock_by_addr, sock_by_fd, sock_save_local, sock_save_remote, ◌then◌,
}
use patty.Requests.Connect.{
  closed_after, connect_bound, connect_checked, connect_refused, connect_route, connect_saved,
  connect_start, connect_waiting, in_state, server_close, server_connect, shut_sent, sock_shutdown,
  transmit, xid_sent,
}
use patty.Requests.Calls.{
  Handler, first_char, is_listening, made_listening, next_call, server_accept, server_bind,
  server_listen, with_sock,
}
use patty.Requests.Keeps.{
  Consistent, Consistent-SameSocks, SameSocks, SameSocks-put, SameSocks-refl, SameSocks-trans,
  Stays, client_save_by_sock-Stays, same, sock_save_local-Stays, sock_save_remote-Stays, then-Stays,
}
use patty.Requests.Keeps.Closing.{InMemory, InMemory-SameSocks, in_memory, sock_close-Consistent}

pub with_sock-Consistent :
    (fd : ℕ) (f : ℕ → Object → Handler) (s : Server)
    → Consistent s
    → ((p : ℕ) (obj : Object) → InMemory s p obj.fd → Consistent (f p obj s).1)
    → Consistent (with_sock fd f s).1
with_sock-Consistent fd f s c h =
    let p = sock_by_fd s.socks_by_fd fd in
    elim (Bool-cases (p == 0)) [
      | inl e ↦ rw e c
      | inr e ↦ elim (Option-cases (s.heap p)) [
        | inl k ↦ rw (e, k) c
        | inr (obj, k) ↦ rw (e, k) (h p obj (in_memory obj k refl))
      ]
    ]

-- A socket in memory is written.
put-SameSocks : (s : Server) (p : ℕ) (n : Object) → InMemory s p n.fd → SameSocks s (put s p n)
put-SameSocks s p n (in_memory o e f) = SameSocks-put s p o n e (sym f)

InMemory-put : (s : Server) (p : ℕ) (n : Object) → InMemory s p n.fd → InMemory (put s p n) p n.fd
InMemory-put s p n m = InMemory-SameSocks p n.fd (put-SameSocks s p n m) m

pub put-Consistent :
    (s : Server) (p : ℕ) (n : Object) → InMemory s p n.fd → Consistent s → Consistent (put s p n)
put-Consistent s p n m c = Consistent-SameSocks (put-SameSocks s p n m) c

transmit-SameSocks : (m : Result (List ℕ)) (s : Server) → SameSocks s (transmit m s).1
transmit-SameSocks (err e) s = SameSocks-refl s
transmit-SameSocks fault s = SameSocks-refl s
transmit-SameSocks (ok []) s = SameSocks-refl s
transmit-SameSocks (ok (b ∷ bytes)) s = elim (Bool-cases (next_call s.calls).0) [
  | inl e ↦ rw e (record { by_fd = refl; fresh_is = refl; at = λ p. same refl })
  | inr e ↦ rw e (record { by_fd = refl; fresh_is = refl; at = λ p. same refl })
]

pub server_bind-Consistent :
    (request : ℕ × Addr) (s : Server) → Consistent s → Consistent (server_bind request s).1
unfolding server_bind
server_bind-Consistent (fd, addr) s c = with_sock-Consistent fd _ s c λ p obj m.
    elim (Bool-cases (first_char obj.sock.local == 0)) [
      | inr e ↦ rw e c
      | inl e ↦ elim (Bool-cases (sock_by_addr s.socks_local addr == 0)) [
        | inr k ↦ rw (e, k) c
        | inl k ↦
            rw (e, k)
              (put-Consistent s p (record obj { sock = record obj.sock { local = addr } }) m c)
      ]
    ]

pub server_listen-Consistent :
    (fd : ℕ) (s : Server) → Consistent s → Consistent (server_listen fd s).1
unfolding server_listen made_listening Stays
server_listen-Consistent fd s c = with_sock-Consistent fd _ s c λ p obj m.
    let now = made_listening obj in
    let after =
      Consistent-SameSocks (sock_save_local-Stays p now (put s p now))
        (put-Consistent s p now m c) in
    elim (Bool-cases (first_char obj.sock.local == 0)) [
      | inl e ↦ rw e c
      | inr e ↦ elim (Bool-cases (sock_save_local p now (put s p now)).0) [
        | inl k ↦ rw (e, k) after
        | inr k ↦ rw (e, k) after
      ]
    ]

pub server_accept-Consistent :
    (fd : ℕ) (s : Server) → Consistent s → Consistent (server_accept fd s).1
unfolding server_accept
server_accept-Consistent fd s c = with_sock-Consistent fd _ s c λ p obj m.
    elim (Bool-cases (is_stream obj.sock.kind)) [
      | inr e ↦ rw e c
      | inl e ↦ elim (Bool-cases (is_listening obj.sock.state)) [
        | inl k ↦ rw (e, k) c
        | inr k ↦ rw (e, k) c
      ]
    ]

xid_sent-SameSocks :
    (p : ℕ) (now : Object) (r : Result (Unit {0})) (s : Server)
    → InMemory s p now.fd
    → SameSocks s (xid_sent p now (r, s)).1
unfolding connect_waiting
xid_sent-SameSocks p now (ok _) s m = put-SameSocks s p (connect_waiting now) m
xid_sent-SameSocks p now (err e) s m = SameSocks-refl s
xid_sent-SameSocks p now fault s m = SameSocks-refl s

connect_start-SameSocks :
    (kind : SockType) (p : ℕ) (obj : Object) (s : Server)
    → InMemory s p obj.fd
    → SameSocks s (connect_start kind p obj s).1
unfolding connect_start
connect_start-SameSocks dgram p obj s m = put-SameSocks s p (in_state established obj) m
connect_start-SameSocks raw p obj s m = SameSocks-refl s
connect_start-SameSocks stream p obj s m =
    let now = in_state pending_connect obj in
    let wrote = put-SameSocks s p now m in
    let sends = transmit-SameSocks (send_xid now.sock command) (put s p now) in
    let so_far = SameSocks-trans wrote sends in
    SameSocks-trans so_far (xid_sent-SameSocks p now _ _ (InMemory-SameSocks p obj.fd so_far m))

connect_saved-Consistent :
    (client p : ℕ) (obj : Object) (s : Server)
    → Consistent s
    → InMemory s p obj.fd
    → Consistent (connect_saved client p obj s).1
unfolding connect_saved Stays
connect_saved-Consistent client p obj s c m =
    let t = put s p obj in
    let after = sock_save_remote p obj t then client_save_by_sock client obj in
    let saves =
      then-Stays t (sock_save_remote p obj t) (client_save_by_sock client obj)
        (sock_save_remote-Stays p obj t) (client_save_by_sock-Stays client obj) in
    let there = InMemory-SameSocks p obj.fd saves (InMemory-put s p obj m) in
    let now = Consistent-SameSocks saves (put-Consistent s p obj m c) in
    elim (Bool-cases after.0) [
      | inl e ↦
          rw e
            (Consistent-SameSocks (connect_start-SameSocks obj.sock.kind p obj after.1 there) now)
      | inr e ↦ rw e now
    ]

connect_checked-Consistent :
    (refused : Option Errno) (route client : ℕ) (peer : Addr) (p : ℕ) (obj : Object) (s : Server)
    → Consistent s
    → InMemory s p obj.fd
    → Consistent (connect_checked refused route client peer p obj s).1
unfolding connect_bound
connect_checked-Consistent (some e) route client peer p obj s c m = c
connect_checked-Consistent none route client peer p obj s c m = elim (Bool-cases (route == 0)) [
  | inl e ↦ rw e c
  | inr e ↦
      rw e (
        connect_saved-Consistent client p (connect_bound s (s.route_at route).iface peer obj) s c m)
]

pub server_connect-Consistent :
    (client : ℕ) (request : ℕ × Addr) (s : Server)
    → Consistent s
    → Consistent (server_connect client request s).1
unfolding server_connect
server_connect-Consistent client (fd, peer) s c = with_sock-Consistent fd _ s c λ p obj m.
    connect_checked-Consistent (connect_refused obj.sock.kind obj.sock.state)
      (connect_route s obj.sock) client peer p obj s c m

-- What sock_shutdown leaves.
data Shut (s : Server) (p fd : ℕ) : Result Object × Server → Type 0 where
  shut_down : (now : Object) (t : Server) → SameSocks s t → now.fd ≡ fd → Shut s p fd (ok now, t)
  not_sent : (e : Errno) (t : Server) → SameSocks s t → Shut s p fd (err e, t)
  outside : (t : Server) → SameSocks s t → Shut s p fd (fault, t)

fd_set-SameSocks : (s : Server) (fd : ℕ) (on : Bool) → SameSocks s (fd_set s fd on)
fd_set-SameSocks s fd on = record { by_fd = refl; fresh_is = refl; at = λ q. same refl }

shut_sent-Shut :
    (r : Result (Unit {0})) (s t : Server) (p : ℕ) (now : Object)
    → SameSocks s t
    → Shut s p now.fd (shut_sent now (r, t))
shut_sent-Shut (ok _) s t p now h = shut_down now t h refl
shut_sent-Shut (err e) s t p now h = not_sent e t h
shut_sent-Shut fault s t p now h = outside t h

sock_shutdown-Shut :
    (p : ℕ) (obj : Object) (s : Server)
    → InMemory s p obj.fd
    → Shut s p obj.fd (sock_shutdown p obj s)
unfolding sock_shutdown shut
sock_shutdown-Shut p obj s m =
    let t = fd_set s obj.fd false in
    let now = record obj { sock = shut obj.sock } in
    let cleared = fd_set-SameSocks s obj.fd false in
    elim (Bool-cases (is_stream obj.sock.kind && is_established obj.sock.state)) [
      | inr e ↦ rw e (shut_down obj t cleared refl)
      | inl e ↦ rw e (
          shut_sent-Shut (transmit (send_disc now.sock 1) (put t p now)).0 s _ p now (
            SameSocks-trans cleared (
              SameSocks-trans (put-SameSocks t p now (InMemory-SameSocks p obj.fd cleared m))
                (transmit-SameSocks (send_disc now.sock 1) (put t p now)))))
    ]

closed_after-Consistent :
    (p fd : ℕ) (s : Server) (after : Result Object × Server)
    → Consistent s
    → InMemory s p fd
    → Shut s p fd after
    → Consistent (closed_after p after).1
closed_after-Consistent p fd s _ c m (not_sent e t h) = Consistent-SameSocks h c
closed_after-Consistent p fd s _ c m (outside t h) = Consistent-SameSocks h c
closed_after-Consistent p fd s _ c m (shut_down now t h e) =
    sock_close-Consistent p now t (Consistent-SameSocks h c) (rw e (InMemory-SameSocks p fd h m))

pub server_close-Consistent :
    (client fd : ℕ) (s : Server) → Consistent s → Consistent (server_close client fd s).1
unfolding server_close
server_close-Consistent client fd s c = with_sock-Consistent fd _ s c λ p obj m.
    elim (Bool-cases (dict_get s.socks_by_client client == 0)) [
      | inl e ↦ rw e c
      | inr e ↦ rw e (closed_after-Consistent p obj.fd s _ c m (sock_shutdown-Shut p obj s m))
    ]
