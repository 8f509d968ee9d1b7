-- ===== src/Server/Reply.antt =====
-- The replies to a frame without a socket of server.c (save_reply_addr, reply_to, reply_dm,
-- reply_ua, reply_test, respond_connect, notify_accept), and patty_ax25_if_addr_match of if.c.
pub mod Keeps
use patty.Prelude.{
  Bool, List, Option, [], bit_or, drop, false, if◌then◌else◌, leb, length, ltb, none, reverse, take,
  true, ℕ, ◌&&◌, ◌*◌, ◌++◌, ◌==◌, ◌^◌, ◌∷◌,
}
use patty.Result.{Errno, Result, fault, ok}
use patty.Frame.{Addr, Cr, Frame, Version, max_hops, normal}
use patty.Frame.Kind
use patty.Frame.Control.{encode_reply_to}
use patty.Sock.{Sock}
use patty.Server.{Iface, accepted, answered}
use patty.Server.Action.{Step, call, emit, lift, link, transmit, ◌>>=◌, ◌>>◌}

-- Equality of the bytes of two callsigns.
unfoldable pub eq_bytes : List ℕ → List ℕ → Bool
eq_bytes [] [] = true
eq_bytes (a ∷ as_) (b ∷ bs) = a == b && eq_bytes as_ bs
eq_bytes _ _ = false

abbrev same_call : Addr → Addr → Bool
same_call a b = eq_bytes a.callsign b.callsign

unfoldable pub any_match : List Addr → Addr → Bool
unfolding eq_bytes
any_match [] addr = false
any_match (alias ∷ rest) addr = if same_call alias addr then true else any_match rest addr

-- patty_ax25_if_addr_match: the SSID is not compared.
unfoldable pub addr_match : Iface → Addr → Bool
unfolding any_match eq_bytes
addr_match iface addr = if same_call iface.addr addr then true else any_match iface.aliases addr

-- save_reply_addr: the number of hops is the socket's own.
pub save_reply_addr : Frame → Sock → Result Sock
save_reply_addr frame sock =
    let hops = if ltb max_hops frame.hops then max_hops else sock.hops in
    if leb hops (length frame.repeaters)
    then ok (record sock {
      remote = frame.src;
      local = frame.dest;
      repeaters = reverse (take hops frame.repeaters) ++ drop hops sock.repeaters;
      hops = hops;
    })
    else fault

-- A frame with the members that an initialiser names; the others are zero.
reply_frame : ℕ → Option (List ℕ) → ℕ → Frame
reply_frame control info infolen = record {
  dest = record { callsign = []; ssid = 0 };
  src = record { callsign = []; ssid = 0 };
  repeaters = [];
  hops = 0;
  control = control;
  nr = 0;
  ns = 0;
  pf = 0;
  cr = Cr.old;
  kind = 0;
  format = normal;
  version = Version.old;
  proto = 0;
  info = info;
  infolen = infolen;
}

-- reply_to
pub reply_to : Frame → Frame → Step
reply_to frame reply = link >>= λ l. lift (encode_reply_to frame reply l.iface.mtu) >>= transmit

-- reply_dm
pub reply_dm : Frame → ℕ → Step
unfolding reply_to reply_frame
reply_dm frame flag = reply_to frame (reply_frame (bit_or Kind.dm (flag * 2 ^ 4)) none 0)

-- reply_ua
pub reply_ua : Frame → ℕ → Step
unfolding reply_to reply_frame
reply_ua frame flag = reply_to frame (reply_frame (bit_or Kind.ua (flag * 2 ^ 4)) none 0)

-- reply_test
pub reply_test : Frame → Step
unfolding reply_to reply_frame
reply_test frame =
    reply_to frame (reply_frame (bit_or Kind.ua (1 * 2 ^ 4)) frame.info frame.infolen)

-- respond_connect: the error, or none where it has succeeded.
unfoldable pub respond_connect : Option Errno → Step
respond_connect eno = call >> emit (answered eno)

-- notify_accept to the client of the listening socket.
pub notify_accept : Step
notify_accept = link >>= λ l. call >> emit (accepted l.sock.remote)
