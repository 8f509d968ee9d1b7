-- ===== src/Server/Connect.antt =====
-- Frames that set up and end a link: handle_frmr, handle_sabm, handle_test, handle_ua, handle_dm
-- and handle_disc of server.c.
pub mod Keeps
pub mod Plain
use patty.Prelude.{Bool, Option, false, if◌then◌else◌, none, some, true, ℕ, ◌&&◌, ◌==◌}
use patty.Result.{econnrefused}
use patty.Timer
use patty.Frame.{Frame}
use patty.Frame.Kind
use patty.Sock.{
  Sock, State, established, init_bufs, listening, pending_accept, pending_connect,
  pending_disconnect, reset, sabm, sabme,
}
use patty.Sock.Params.{upgrade}
use patty.Sock.Output.{send_sabm}
use patty.Server.Action.{
  Action, Step, call, done, lift, link, modify, on_error, on_sock, pure, send, update, watch,
  with_unit, ◌>>=◌, ◌>>◌,
}
use patty.Server.Life.{bind_if, is_stream, sock_close, sock_destroy, sock_new, sock_save}
use patty.Server.Reply.{
  addr_match, notify_accept, reply_dm, reply_test, reply_ua, respond_connect, save_reply_addr,
}

-- patty_ax25_sock_reset on the socket of the link.
pub reset_sock : Step
unfolding with_unit
reset_sock = update (λ sock. with_unit (reset sock))

-- patty_ax25_sock_realloc_bufs, which asks for memory.
pub realloc_bufs : Step
realloc_bufs = call >> modify init_bufs

-- The retries start again, and timer T1.
pub again : Sock → Sock
again sock = record sock { retries = sock.n_retry; timer_t1 = Timer.start sock.timer_t1 }

pub frmr_by_state : State → Step
unfolding reset_sock again
frmr_by_state pending_connect = modify again >> send (λ sock. send_sabm sock 1)
frmr_by_state established = reset_sock
frmr_by_state _ = done

-- handle_frmr
pub handle_frmr : Step
unfolding frmr_by_state
handle_frmr = on_sock (link >>= λ l. frmr_by_state l.sock.state)

-- The socket that handle_sabm goes on with: whether it has been created.
pub accepting : Frame → Sock → Action Bool
accepting frame listener = link >>= λ l. if l.live then pure false else do
  sock_new listener.proto listener.kind
  modify (λ sock. record sock { state = pending_accept })
  fresh ← link
  named ← lift (save_reply_addr frame fresh.sock)
  modify (λ _. named)
  pure true

-- The mode that the frame asks for.
abbrev agree : ℕ → Sock → Sock
agree kind sock =
    if kind == Kind.sabme
    then record (upgrade (record sock { state = established })) { mode = sabme }
    else record sock { state = established; mode = sabm }

-- The rest of handle_sabm for a socket that waits for it.
accept : Frame → Bool → Step
unfolding realloc_bufs
accept frame created = do
  modify (agree frame.kind)
  on_error realloc_bufs sock_destroy
  bind_if
  (if created then sock_save else done)
  watch true
  on_error notify_accept sock_destroy
  modify (λ sock. record sock { timer_t3 = Timer.start sock.timer_t3 })
  reply_ua frame 1

pub sabm_by_state : Frame → Bool → State → Step
unfolding accept reset_sock
sabm_by_state frame created pending_accept = accept frame created
sabm_by_state frame created established =
    reset_sock >> (if frame.pf == 1 then reply_ua frame 1 else done)
sabm_by_state frame created _ = reply_dm frame 1

-- The listening socket that takes a connection.
abbrev pub is_listening : Sock → Bool
is_listening sock = is_stream sock.kind && (elim sock.state [ listening ↦ true | _ ↦ false ])

pub sabm_on : Frame → Option Sock → Step
unfolding sabm_by_state accepting
sabm_on frame none = reply_dm frame 1
sabm_on frame (some listener) =
    if is_listening listener
    then (accepting frame listener >>= λ created.
        link >>= λ l. sabm_by_state frame created l.sock.state)
    else reply_dm frame 1

-- handle_sabm
pub handle_sabm : Frame → Step
unfolding sabm_on
handle_sabm frame = link >>= λ l. sabm_on frame l.listener

-- handle_test
pub handle_test : Frame → Step
handle_test frame = link >>= λ l. if addr_match l.iface frame.dest then reply_test frame else done

-- The assignments of handle_ua.
pub linked : Sock → Sock
linked sock = record sock {
  timer_t1 = Timer.stop sock.timer_t1;
  timer_t3 = Timer.start sock.timer_t3;
  state = established;
}

pub ua_by_state : Frame → State → Step
unfolding realloc_bufs linked
ua_by_state frame pending_connect = do
  realloc_bufs
  modify linked
  sock_save
  watch true
  respond_connect none
ua_by_state frame pending_disconnect = sock_close
ua_by_state frame established = done
ua_by_state frame _ = reply_dm frame 1

-- handle_ua
pub handle_ua : Frame → Step
unfolding ua_by_state
handle_ua frame = link >>= λ l.
    if addr_match l.iface frame.dest
    then if l.live then ua_by_state frame l.sock.state else reply_dm frame 1
    else done

pub dm_by_state : State → Step
unfolding reset_sock
dm_by_state pending_connect = reset_sock >> respond_connect (some econnrefused)
dm_by_state pending_disconnect =
    modify (λ sock. record sock { timer_t1 = Timer.stop sock.timer_t1 }) >> sock_close
dm_by_state _ = done

-- handle_dm
pub handle_dm : Step
unfolding dm_by_state
handle_dm = on_sock (link >>= λ l. dm_by_state l.sock.state)

pub disc_by_state : Frame → State → Step
disc_by_state frame established = sock_close >> reply_ua frame 1
disc_by_state frame pending_disconnect = done
disc_by_state frame _ = reply_dm frame 1

-- handle_disc
pub handle_disc : Frame → Step
unfolding disc_by_state
handle_disc frame =
    link >>= λ l. if l.live then disc_by_state frame l.sock.state else reply_dm frame 1
