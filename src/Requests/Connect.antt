-- ===== src/Requests/Connect.antt =====
-- The connect and close requests of server.c: server_connect, server_close and sock_shutdown.
use patty.Prelude.{
  List, Option, [], bit_or, false, if◌then◌else◌, none, not, some, true, ℕ, ◌&&◌, ◌==◌, ◌∷◌,
}
use patty.Frame.{Addr, command}
use patty.Result.{Errno, Result, ebadf, einval, eisconn, enetdown, enotsup, err, fault, ok, stale}
use patty.Sock.{Sock, SockType, State, dgram, established, listening, pending_connect, raw, stream}
use patty.Dict.{dict_get}
use patty.Timer
use patty.Route.{table_default, table_find}
use patty.Sock.Output.{send_disc, send_xid}
use patty.Server.Life.{is_established, is_stream, shut}
use patty.Requests.{Object, Outcome, Server, broken, crash, fd_set, put, reply, silent}
use patty.Requests.Tables.{client_save_by_sock, sock_by_fd, sock_close, sock_save_remote, ◌then◌}
use patty.Requests.Calls.{Handler, first_char, next_call, with_sock}

-- The checks of server_connect on the socket.
unfoldable pub connect_refused : SockType → State → Option Errno
connect_refused raw state = some enotsup
connect_refused kind listening = some einval
connect_refused kind established = some eisconn
connect_refused kind state = none

-- The route of server_connect: for a bound socket, that of its local address.
unfoldable pub connect_route : Server → Sock → ℕ
connect_route s sock =
    if not (first_char sock.local == 0)
    then table_find s.routes sock.local
    else table_default s.routes

-- The socket of server_connect with its interface and addresses.
unfoldable pub connect_bound : Server → ℕ → Addr → Object → Object
connect_bound s iface peer obj =
    let at = s.iface_at iface in
    record obj {
      iface = iface;
      sock = record obj.sock {
        has_iface = true;
        flags_classes = bit_or obj.sock.flags_classes at.flags_classes;
        local = if first_char obj.sock.local == 0 then at.addr else obj.sock.local;
        remote = peer;
      };
    }

-- A frame that a send has encoded goes to patty_ax25_if_send: what has become of it.
abbrev pub transmit : Result (List ℕ) → Server → Result (Unit {0}) × Server
transmit (err e) s = (err e, s)
transmit fault s = (fault, s)
transmit (ok []) s = (ok tt, s)
transmit (ok (b ∷ bytes)) s =
    let call = next_call s.calls in
    if call.0
    then (ok tt, record s { calls = call.1; frames_sent = (b ∷ bytes) ∷ s.frames_sent })
    else (err stale, record s { calls = call.1 })

-- The socket that waits for the answer to the XID frame.
unfoldable pub connect_waiting : Object → Object
connect_waiting obj = record obj {
  sock = record obj.sock { retries = obj.sock.n_retry; timer_t1 = Timer.start obj.sock.timer_t1 };
}

abbrev pub in_state : State → Object → Object
in_state state obj = record obj { sock = record obj.sock { state = state } }

abbrev pub xid_sent : ℕ → Object → Result (Unit {0}) × Server → Outcome × Server
xid_sent p obj (ok _, s) = (silent, put s p (connect_waiting obj))
xid_sent p obj (err e, s) = (reply (some e), s)
xid_sent p obj (fault, s) = (crash, s)

-- The last `switch` of server_connect.
unfoldable pub connect_start : SockType → ℕ → Object → Handler
unfolding connect_waiting
connect_start dgram p obj s = (silent, put s p (in_state established obj))
connect_start stream p obj s =
    let now = in_state pending_connect obj in
    xid_sent p now (transmit (send_xid now.sock command) (put s p now))
connect_start raw p obj s = (silent, s)

-- The tables of server_connect, and what follows.
unfoldable pub connect_saved : ℕ → ℕ → Object → Handler
unfolding sock_save_remote client_save_by_sock connect_start
connect_saved client p obj s =
    let after = sock_save_remote p obj (put s p obj) then client_save_by_sock client obj in
    if after.0 then connect_start obj.sock.kind p obj after.1 else (broken, after.1)

abbrev pub connect_checked : Option Errno → ℕ → ℕ → Addr → ℕ → Object → Handler
connect_checked (some e) route client peer p obj s = (reply (some e), s)
connect_checked none route client peer p obj s =
    if route == 0
    then (reply (some enetdown), s)
    else connect_saved client p (connect_bound s (s.route_at route).iface peer obj) s

-- server_connect
unfoldable pub server_connect : ℕ → ℕ × Addr → Handler
unfolding sock_by_fd connect_refused connect_route connect_bound connect_saved
server_connect client (fd, peer) = with_sock fd λ p obj s.
    connect_checked (connect_refused obj.sock.kind obj.sock.state) (connect_route s obj.sock) client
      peer p obj s

abbrev pub shut_sent : Object → Result (Unit {0}) × Server → Result Object × Server
shut_sent now (ok _, s) = (ok now, s)
shut_sent now (err e, s) = (err e, s)
shut_sent now (fault, s) = (fault, s)

-- sock_shutdown: the socket as it is left, if DISC was sent where it has to be.
unfoldable pub sock_shutdown : ℕ → Object → Server → Result Object × Server
unfolding shut
sock_shutdown p obj s =
    let t = fd_set s obj.fd false in
    let now = record obj { sock = shut obj.sock } in
    if is_stream obj.sock.kind && is_established obj.sock.state
    then shut_sent now (transmit (send_disc now.sock 1) (put t p now))
    else (ok obj, t)

abbrev pub closed_after : ℕ → Result Object × Server → Outcome × Server
closed_after p (err e, s) = (reply (some e), s)
closed_after p (fault, s) = (crash, s)
closed_after p (ok obj, s) =
    let after = sock_close p obj s in (if after.0 then reply none else reply (some ebadf), after.1)

-- server_close
unfoldable pub server_close : ℕ → ℕ → Handler
unfolding sock_by_fd sock_shutdown sock_close
server_close client fd = with_sock fd λ p obj s.
    if dict_get s.socks_by_client client == 0
    then (reply (some ebadf), s)
    else closed_after p (sock_shutdown p obj s)
