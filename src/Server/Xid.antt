-- ===== src/Server/Xid.antt =====
-- handle_xid of server.c.
pub mod Keeps
use patty.Prelude.{Bool, List, Option, false, if◌then◌else◌, none, some, true, ℕ}
use patty.Result.{Result, err, fault, ok}
use patty.Frame.{Frame, response}
use patty.Frame.Xid.{decode_xid}
use patty.Sock.{
  Sock, State, hdlc_modulo_128, init, listening, pending_accept, pending_connect, sabme,
}
use patty.Sock.Params.{Params, has, max, negotiate}
use patty.Sock.Params
use patty.Sock.Output.{send_sabm, send_xid}
use patty.Server.{Link}
use patty.Server.Action.{Action, Step, done, lift, link, modify, on_error, send, ◌>>=◌, ◌>>◌}
use patty.Server.Life.{bind_if, sock_destroy, sock_new, sock_save}
use patty.Server.Reply.{addr_match, reply_dm, respond_connect, save_reply_addr}
use patty.Server.Connect.{again, reset_sock}

-- patty_ax25_sock_params_negotiate on the socket of the link, which changes the parameters too.
negotiate_sock : Params → Action Params
negotiate_sock params l = let out = negotiate l.sock params in (out.1, record l { sock = out.0 })

-- The mode for these options.
abbrev pub extend : Params → Sock → Sock
extend params sock = if has params.hdlc hdlc_modulo_128 then record sock { mode = sabme } else sock

-- The last steps: the return value is that of the send.
finish_with : Step → Step
finish_with sending = on_error sending (modify again) >> modify again

-- The answer to our XID: the parameters agreed on, or an error.
agreed : Result Params × Link → Result (Unit {0}) × Link
unfolding finish_with
agreed (ok params, l) = (modify (extend params) >> finish_with (send (λ sock. send_sabm sock 1))) l
agreed (err e, l) = (modify init >> reset_sock >> respond_connect (some e)) l
agreed (fault, l) = (fault, l)

pub xid_answer : Frame → Params → State → Step
unfolding agreed negotiate_sock
xid_answer frame params pending_connect l = agreed (negotiate_sock params l)
xid_answer frame params _ l = reply_dm frame 1 l

abbrev is_listening_state : State → Bool
is_listening_state listening = true
is_listening_state _ = false

-- An XID for a listening socket.
xid_offer : Frame → Params → Sock → Step
unfolding finish_with negotiate_sock
xid_offer frame params listener = do
  sock_new listener.proto listener.kind
  modify (λ sock. extend params (record sock { state = pending_accept }))
  bind_if
  modify Params.max
  on_error (negotiate_sock params) sock_destroy
  l ← link
  named ← lift (save_reply_addr frame l.sock)
  modify (λ _. named)
  sock_save
  finish_with (send (λ sock. send_xid sock response))

pub xid_on : Frame → Params → Option Sock → Step
unfolding xid_offer
xid_on frame params none = reply_dm frame 1
xid_on frame params (some listener) =
    if is_listening_state listener.state then xid_offer frame params listener else reply_dm frame 1

-- handle_xid; `params` is what the memory of its parameters holds before.
pub handle_xid : Params → Frame → List ℕ → ℕ → ℕ → Step
unfolding xid_answer xid_on
handle_xid params frame buf offset len = link >>= λ l.
    if addr_match l.iface frame.dest
    then (lift (decode_xid params buf offset len) >>= λ decoded.
        if l.live
        then xid_answer frame decoded.0 l.sock.state
        else xid_on frame decoded.0 l.listener)
    else done
