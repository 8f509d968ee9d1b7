-- ===== src/Server/Life.antt =====
-- The life of the socket in the server: sock_shutdown, sock_save, sock_close, sock_flow_stop and
-- sock_flow_start of server.c, and patty_ax25_sock_new and _bind_if of sock.c.
pub mod Keeps
use patty.Prelude.{Bool, [], bit_or, false, if◌then◌else◌, none, replicate, true, ℕ, ◌&&◌, ◌+◌}
use patty.Prelude.Int.{pos}
use patty.Result.{ok}
use patty.Timer
use patty.Frame.{Addr, Version, v2_0}
use patty.Sock.{
  Sock, SockType, State, classes_abm, closed, dgram, dm, established, hdlc_modulo_8, hdlc_rej,
  hdlc_sync_tx, hdlc_test, hdlc_xaddr, init, init_bufs, pending_accept, pending_connect,
  pending_disconnect, raw, stream, wait,
}
use patty.Sock.Output.{send_disc}
use patty.Server.Action.{Step, call, done, link, modify, send, watch, ◌>>=◌, ◌>>◌}

-- `sock->state` is PATTY_AX25_SOCK_ESTABLISHED.
abbrev pub is_established : State → Bool
is_established established = true
is_established _ = false

abbrev pub is_stream : SockType → Bool
is_stream stream = true
is_stream _ = false

-- The assignments of sock_shutdown.
unfoldable pub shut : Sock → Sock
shut sock = record sock {
  state = pending_disconnect;
  retries = sock.n_retry;
  timer_t1 = Timer.start sock.timer_t1;
}

-- sock_shutdown
pub sock_shutdown : Step
unfolding shut
sock_shutdown = watch false >> link >>= λ l.
    if is_stream l.sock.kind && is_established l.sock.state
    then modify shut >> send (λ sock. send_disc sock 1)
    else done

-- The states in which sock_save sets `socks_remote`.
abbrev pub saves_remote : State → Bool
saves_remote pending_accept = true
saves_remote pending_connect = true
saves_remote established = true
saves_remote _ = false

-- The states in which sock_close deletes from `socks_remote`.
abbrev pub deletes_remote : State → Bool
deletes_remote pending_disconnect = true
deletes_remote state = saves_remote state

-- sock_close: the socket leaves the tables and is destroyed. In the other states `socks_remote` keeps
-- what it holds.
unfoldable pub sock_close : Step
sock_close l = (
  ok tt,
  record l {
    live = if deletes_remote l.sock.state then false else l.live;
    freed = true;
    watched = false;
  },
)

-- patty_ax25_sock_destroy by itself: the tables keep what they hold.
pub sock_destroy : Step
sock_destroy l = (ok tt, record l { freed = true })

-- sock_save: the tables hold the socket, `socks_remote` in the states of a link.
unfoldable pub sock_save : Step
sock_save l = (ok tt, record l { live = if saves_remote l.sock.state then true else l.live })

-- sock_flow_stop
pub sock_flow_stop : Step
sock_flow_stop = watch false >> modify (λ sock. record sock { flow = wait })

-- sock_flow_start
pub sock_flow_start : Step
sock_flow_start = watch true

-- patty_ax25_sock_bind_if, for a socket that is not promiscuous.
pub bind_if : Step
bind_if = link >>= λ l. modify (λ sock. record sock {
  has_iface = true;
  flags_classes = bit_or sock.flags_classes l.iface.flags_classes;
})

-- PATTY_AX25_SOCK_DEFAULT_HDLC of sock.h
abbrev pub default_hdlc : ℕ
default_hdlc = hdlc_rej + hdlc_xaddr + hdlc_modulo_8 + hdlc_test + hdlc_sync_tx

abbrev zero_addr : Addr
zero_addr = record { callsign = replicate 6 0; ssid = 0 }

abbrev zero_timer : Timer.Timer
zero_timer = record { ms = 0; t = record { tv_sec = pos 0; tv_nsec = pos 0 }; running = false }

-- The memory of a new socket: zeros.
unfoldable pub zero_sock : Sock
zero_sock = record {
  proto = 0;
  kind = stream;
  version = Version.old;
  state = closed;
  mode = dm;
  flow = wait;
  has_iface = false;
  local = zero_addr;
  remote = zero_addr;
  repeaters = [];
  hops = 0;
  tx_buf = [];
  tx_slots = [];
  flags_classes = 0;
  flags_hdlc = 0;
  n_maxlen_tx = 0;
  n_maxlen_rx = 0;
  n_window_tx = 0;
  n_window_rx = 0;
  n_ack = 0;
  n_retry = 0;
  timer_t1 = zero_timer;
  timer_t2 = zero_timer;
  timer_t3 = zero_timer;
  vs = 0;
  vr = 0;
  va = 0;
  retries = 0;
  rx_pending = 0;
}

-- The fields of patty_ax25_sock_new. A raw socket has no protocol; a datagram socket no buffers.
unfoldable pub new_sock : ℕ → SockType → Sock
unfolding zero_sock
new_sock proto dgram = record zero_sock { proto = proto; kind = dgram }
new_sock proto raw = record zero_sock { kind = raw; state = established }
new_sock proto stream = init_bufs (record (init zero_sock) {
  proto = proto;
  kind = stream;
  version = v2_0;
  flags_classes = classes_abm;
  flags_hdlc = default_hdlc;
})

-- patty_ax25_sock_new, where opening the descriptors is a system call. The new socket is not yet in
-- the tables, and has no assembler.
pub sock_new : ℕ → SockType → Step
unfolding new_sock
sock_new proto kind = call >> (λ l.
    (ok tt, record l { sock = new_sock proto kind; assembler = none; live = false; freed = false }))
