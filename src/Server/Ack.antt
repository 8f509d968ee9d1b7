-- ===== src/Server/Ack.antt =====
-- Acknowledgements and supervisory frames: frame_ack, handle_rr, handle_rnr, handle_rej and
-- handle_srej of server.c.
pub mod Keeps
pub mod Silent
pub mod Overflow
use patty.Prelude.{Option, if◌then◌else◌, leb, ltb, none, not, some, ℕ, ◌&&◌, ◌+◌, ◌==◌}
use patty.Timer
use patty.Frame.{Cr, Frame, command, is_control_s, response}
use patty.Sock.{Sock, is_sabme}
use patty.Sock.Window.{ack_pending, sock_ack}
use patty.Sock.Output.{resend, send_rr}
use patty.Server.Action.{Step, done, modify, on_sock, send, update, ◌>>=◌, ◌>>◌}
use patty.Server.Life.{sock_flow_start, sock_flow_stop}

-- The assignments at its start.
pub heard : Sock → Sock
heard sock = record sock { rx_pending = 0; timer_t3 = Timer.start sock.timer_t3 }

-- Timer T1 with `waiting` slots left.
pub restart_t1 : ℕ → Sock → Sock
restart_t1 waiting sock =
    if ltb 0 waiting
    then record sock { timer_t1 = Timer.start sock.timer_t1; retries = sock.n_retry }
    else record sock { timer_t1 = Timer.stop sock.timer_t1 }

pub counted : Sock → Option ℕ → Option (Sock × ℕ)
counted sock none = none
counted sock (some n) = some (sock, n)

-- What frame_ack does with timer T1 where something is acknowledged.
pub rearm_t1 : Step
unfolding counted restart_t1
rearm_t1 =
    update (λ sock. counted sock (ack_pending sock)) >>= λ waiting. modify (restart_t1 waiting)

-- The last assignments: V(S) goes back to N(R) where it lies between V(A) and V(S), which is taken
-- modulo the number of sequence numbers while N(R) is not.
pub resume : ℕ → Sock → Sock
resume nr sock =
    let last =
      if ltb sock.vs sock.va then sock.vs + (if is_sabme sock.mode then 128 else 8) else sock.vs in
    if leb sock.va nr && leb nr last then record sock { vs = nr; retries = sock.n_retry } else sock

-- frame_ack
pub frame_ack : Frame → Step
unfolding heard resume rearm_t1
frame_ack frame = do
  modify heard
  fresh ← update (λ sock. sock_ack sock frame.nr)
  (if ltb 0 fresh then rearm_t1 else done)
  if is_control_s frame.control && not (frame.pf == 0) then modify (resume frame.nr) else done

-- The answer to a command with the poll bit.
abbrev pub answer_poll : Frame → Step
answer_poll frame = if not (frame.pf == 0) then send (λ sock. send_rr sock response 1) else done

-- The switch on the command bits.
pub by_cr : Cr → Step → Step → Step
by_cr command on_command on_response = on_command
by_cr response on_command on_response = on_response
by_cr Cr.old on_command on_response = done

-- handle_rr
pub handle_rr : Frame → Step
unfolding frame_ack by_cr
handle_rr frame = on_sock (frame_ack frame >> by_cr frame.cr (answer_poll frame) sock_flow_start)

-- handle_rnr
pub handle_rnr : Frame → Step
unfolding frame_ack by_cr
handle_rnr frame = on_sock (frame_ack frame >> by_cr frame.cr (answer_poll frame) sock_flow_stop)

-- handle_rej
pub handle_rej : Frame → Step
unfolding frame_ack by_cr
handle_rej frame = on_sock (frame_ack frame >> by_cr frame.cr (answer_poll frame) sock_flow_start)

-- handle_srej
pub handle_srej : Frame → Step
unfolding frame_ack
handle_srej frame = on_sock (frame_ack frame >> send (λ sock. resend sock frame.nr))
