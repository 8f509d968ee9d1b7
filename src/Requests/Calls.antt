-- ===== src/Requests/Calls.antt =====
-- The handlers of client requests of server.c: server_socket, server_setsockopt, server_bind,
-- server_listen and server_accept. The request is given, or `none`
-- where reading it fails; the response is written by the caller.
use patty.Prelude.{
  Bool, List, Option, [], bit_and, false, get_or, if◌then◌else◌, none, not, some, true, ℕ, ◌+◌,
  ◌==◌, ◌^◌, ◌||◌, ◌∷◌,
}
use patty.Frame.{Addr}
use patty.Result.{eaddrinuse, ebadf, einval, eopnotsupp}
use patty.Sock.{
  Sock, SockType, State, ack_set, init_bufs, listening, mtu_set, retry_set, window_set,
}
use patty.Server.Life.{is_stream, new_sock}
use patty.Sock.Params.{param_ack, param_info_tx, param_retry, param_window_tx}
use patty.Requests.{Object, Outcome, Server, broken, crash, put, reply, reply_unset, write_at}
use patty.Requests.Tables.{sock_by_addr, sock_by_fd, sock_save, sock_save_local, ◌then◌}

abbrev pub Handler : Type 0
Handler = Server → Outcome × Server

-- The `goto` where reading a request fails.
abbrev pub with_request : {A : Type 0} → Option A → (A → Handler) → Handler
with_request none f s = (broken, s)
with_request (some request) f s = f request s

-- The socket of a descriptor at its pointer, or EBADF.
abbrev pub found : ℕ → Option Object → (ℕ → Object → Handler) → Handler
found p none f s = (crash, s)
found p (some obj) f s = f p obj s

abbrev pub with_sock : ℕ → (ℕ → Object → Handler) → Handler
with_sock fd f s =
    let p = sock_by_fd s.socks_by_fd fd in
    if p == 0 then (reply (some ebadf), s) else found p (s.heap p) f s

-- `addr.callsign[0]`
abbrev pub first_char : Addr → ℕ
first_char addr = get_or addr.callsign 0 0

-- The socket of patty_ax25_sock_new.
abbrev pub new_object : ℕ → SockType → ℕ → Object
new_object proto kind fd = record { sock = new_sock proto kind; fd = fd; iface = 0 }

-- server_socket, where `opened` is what patty_ax25_sock_new comes to, the descriptor of the socket.
-- The response has this descriptor and the path of the terminal.
unfoldable pub server_socket : ℕ → Option ℕ → ℕ × SockType → Handler
unfolding sock_save
server_socket client none (proto, kind) s = (broken, s)
server_socket client (some fd) (proto, kind) s =
    let p = s.fresh in
    let obj = new_object proto kind fd in
    let after = sock_save client p obj (record (put s p obj) { fresh = p + 1 }) in
    if after.0
    then (reply none, after.1)
    else (broken, record after.1 { heap = write_at after.1.heap p none })

-- server_bind
unfoldable pub server_bind : ℕ × Addr → Handler
unfolding sock_by_fd sock_by_addr
server_bind (fd, addr) = with_sock fd λ p obj s.
    if not (first_char obj.sock.local == 0)
    then (reply (some einval), s)
    else if not (sock_by_addr s.socks_local addr == 0)
    then (reply (some eaddrinuse), s)
    else (reply none, put s p (record obj { sock = record obj.sock { local = addr } }))

-- The socket of server_listen.
unfoldable pub made_listening : Object → Object
made_listening obj = record obj { sock = record obj.sock { state = listening } }

-- server_listen
unfoldable pub server_listen : ℕ → Handler
unfolding sock_by_fd sock_save_local made_listening
server_listen fd = with_sock fd λ p obj s.
    if first_char obj.sock.local == 0
    then (reply_unset einval, s)
    else (let now = made_listening obj in
        let after = sock_save_local p now (put s p now) in
        if after.0 then (reply none, after.1) else (broken, after.1))

abbrev pub is_listening : State → Bool
is_listening listening = true
is_listening _ = false

-- server_accept
unfoldable pub server_accept : ℕ → Handler
unfolding sock_by_fd
server_accept fd = with_sock fd λ p obj s.
    if not (is_stream obj.sock.kind)
    then (reply (some eopnotsupp), s)
    else if not (is_listening obj.sock.state)
    then (reply (some einval), s)
    else (reply none, s)

-- A call of patty_ax25_if_send: whether it succeeds, and the calls behind it.
abbrev pub next_call : List Bool → Bool × List Bool
next_call [] = (true, [])
next_call (b ∷ rest) = (b, rest)

-- `patty_client_setsockopt_params`
pub record SockParams : Type 0 where
  pub flags : ℕ
  pub mtu : ℕ
  pub window : ℕ
  pub ack : ℕ
  pub retry : ℕ

-- `data.flags & (1 << number)`
abbrev pub flagged : SockParams → ℕ → Bool
flagged params number = not (bit_and params.flags (2 ^ number) == 0)

-- The setters of server_setsockopt.
unfoldable pub set_params : SockParams → Sock → Sock
set_params params sock =
    let a = if flagged params param_info_tx then mtu_set sock params.mtu else sock in
    let b = if flagged params param_window_tx then window_set a params.window else a in
    let c = if flagged params param_ack then ack_set b params.ack else b in
    if flagged params param_retry then retry_set c params.retry else c

-- server_setsockopt with PATTY_AX25_SOCK_PARAMS: the buffers are allocated again where their sizes
-- have been set, which asks for memory.
unfoldable pub setsockopt_params : ℕ × SockParams → Handler
unfolding sock_by_fd set_params
setsockopt_params (fd, params) = with_sock fd λ p obj s.
    let now = record obj { sock = set_params params obj.sock } in
    let call = next_call s.calls in
    if flagged params param_info_tx || flagged params param_window_tx
    then (if call.0
        then (
          reply none,
          record (put s p (record now { sock = init_bufs now.sock })) { calls = call.1 },
        )
        else (broken, record (put s p now) { calls = call.1 }))
    else (reply none, put s p now)
