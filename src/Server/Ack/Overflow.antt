-- ===== src/Server/Ack/Overflow.antt =====
-- A supervisory frame for a socket whose slots are not those of its mode.
use patty.Prelude.{length, refl, true, ◌<◌, ◌≡◌}
use patty.Result.{fault}
use patty.Frame.{Frame}
use patty.Sock.{sabme}
use patty.Sock.Window.Overflow.{sock_ack-none}
use patty.Server.{Link}
use patty.Server.Action.{link, modify, update, ◌>>=◌, ◌>>◌}
use patty.Server.Ack.{frame_ack, handle_rr, heard}

-- An RR frame on a socket of the tables that is in mode SABME with V(A) at 0, and has the slots of
-- another mode: for an N(R) above their number and below 128, handle_rr reaches outside them.
pub handle_rr-fault :
    (frame : Frame) (l : Link)
    → l.live ≡ true
    → l.sock.mode ≡ sabme
    → l.sock.va ≡ 0
    → length l.sock.tx_slots < frame.nr
    → frame.nr < 128
    → (handle_rr frame l).0 ≡ fault
unfolding handle_rr frame_ack heard ◌>>=◌ ◌>>◌ link modify update
handle_rr-fault frame l live mode va more small =
    rw (live, sock_ack-none (heard l.sock) frame.nr mode va more small) refl
