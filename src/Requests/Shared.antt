-- ===== src/Requests/Shared.antt =====
-- Two sockets that are bound to one address.
use patty.Prelude.{==_ne, false, none, refl, some, ℕ, ◌==◌, ◌≡◌, ◌≢◌}
use patty.Frame.{Addr}
use patty.Requests.{Object, Server, put, reply}
use patty.Requests.Tables.{sock_by_addr, sock_by_fd}
use patty.Requests.Calls.{first_char, server_bind}

-- The descriptor is that of a socket without an address.
pub record Unbound (s : Server) (fd p : ℕ) : Type 0 where
  pub obj : Object
  pub by_fd : sock_by_fd s.socks_by_fd fd ≡ p
  pub some_pointer : p ≢ 0
  pub in_heap : s.heap p ≡ some obj
  pub unbound : first_char obj.sock.local ≡ 0

bind_without_address :
    (s : Server) (fd p : ℕ) (addr : Addr) (h : Unbound s fd p)
    → sock_by_addr s.socks_local addr ≡ 0
    → server_bind (fd, addr) s
      ≡ (reply none, put s p (record h.obj { sock = record h.obj.sock { local = addr } }))
unfolding server_bind
bind_without_address s fd p addr h none_listens =
    let pointer : (p == 0) ≡ false = ==_ne p 0 h.some_pointer in
    rw (h.by_fd, pointer, h.in_heap, h.unbound, none_listens) refl

-- A bind request looks for its address only among the sockets that listen already: of two sockets
-- without an address, both can be bound to one address that no socket listens on, and both requests
-- succeed.
pub server_bind_twice :
    (s : Server) (first second p q : ℕ) (addr : Addr)
    → Unbound s first p
    → Unbound s second q
    → p ≢ q
    → sock_by_addr s.socks_local addr ≡ 0
    → ((server_bind (first, addr) s).0 ≡ reply none)
      × ((server_bind (second, addr) (server_bind (first, addr) s).1).0 ≡ reply none)
server_bind_twice s first second p q addr h k apart none_listens =
    let one = bind_without_address s first p addr h none_listens in
    let t = put s p (record h.obj { sock = record h.obj.sock { local = addr } }) in
    let other : Unbound t second q = record {
      obj = k.obj;
      by_fd = k.by_fd;
      some_pointer = k.some_pointer;
      in_heap = rw (==_ne p q apart) k.in_heap;
      unbound = k.unbound;
    } in
    (rw one refl, rw one (rw (bind_without_address t second q addr other none_listens) refl))
