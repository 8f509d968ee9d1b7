-- ===== src/Server/Reply/Keeps.antt =====
-- The socket under the replies of server.c to a frame.
use patty.Prelude.{Option, ℕ}
use patty.Result.{Errno}
use patty.Frame.{Frame}
use patty.Sock.{Sock}
use patty.Frame.Control.{encode_reply_to}
use patty.Server.{answered}
use patty.Server.Action.Keeps.{
  Keeps, bind-Keeps, call-Keeps, emit-Keeps, lift-Keeps, link-Keeps, then-Keeps, transmit-Keeps,
}
use patty.Server.Reply.{reply_dm, reply_test, reply_to, reply_ua, respond_connect}

module _ {P : Sock → Type 0} where
  reply_to-Keeps : (frame reply : Frame) → Keeps P (reply_to frame reply)
  unfolding reply_to
  reply_to-Keeps frame reply =
      bind-Keeps link-Keeps
        (λ l. bind-Keeps (lift-Keeps (encode_reply_to frame reply l.iface.mtu)) transmit-Keeps)

  pub reply_dm-Keeps : (frame : Frame) (flag : ℕ) → Keeps P (reply_dm frame flag)
  unfolding reply_dm
  reply_dm-Keeps frame flag = reply_to-Keeps frame _

  pub reply_ua-Keeps : (frame : Frame) (flag : ℕ) → Keeps P (reply_ua frame flag)
  unfolding reply_ua
  reply_ua-Keeps frame flag = reply_to-Keeps frame _

  pub reply_test-Keeps : (frame : Frame) → Keeps P (reply_test frame)
  unfolding reply_test
  reply_test-Keeps frame = reply_to-Keeps frame _

  pub respond_connect-Keeps : (eno : Option Errno) → Keeps P (respond_connect eno)
  unfolding respond_connect
  respond_connect-Keeps eno = then-Keeps call-Keeps (emit-Keeps (answered eno))
