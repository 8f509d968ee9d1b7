-- ===== src/Sock/Output.antt =====
-- What a socket sends: the control fields, frame_send, the sends of one frame and the resends of
-- sock.c. The bytes of a result are those that patty_ax25_if_send is called with.
pub mod Control
pub mod Resend
pub mod Whole
pub mod Local
use patty.Prelude.{
  Bool, List, Option, [], bit_and, bit_or, get_or, if◌then◌else◌, length, ltb, none, not, some,
  take, ℕ, ◌&&◌, ◌*◌, ◌++◌, ◌+◌, ◌/◌, ◌==◌, ◌^◌, ◌∷◌,
}
use patty.Prelude.Int.{negsuc, pos, ℤ}
use patty.Result.{Result, ebadf, enetdown, eoverflow, err, fault, guard, ok, stale, ◌>>=◌, ◌>>◌}
use patty.Frame.{Cr, addr_size, command, is_control_i, is_control_u}
use patty.Frame.Kind
use patty.Frame.Control.{in_buffer}
use patty.Frame.Address.{addr_copy, copy_all, flags_local, flags_remote, mark_last}
use patty.Sock.{Mode, Sock, dm, is_dm, is_sabme, max_hdlc_2_2, sabm, sabme}
use patty.Sock.Params.{Params}
use patty.Frame.Xid.{encode_xid}
use patty.Sock.Window.{flow_left, is_pending, tx_seq, tx_slot, tx_slot_save, vs_incr}

-- `encode_address`
unfoldable pub encode_address : Sock → Cr → ℕ → Result (List ℕ)
encode_address sock cr len = do
  guard (not (ltb len ((2 + sock.hops) * addr_size))) eoverflow
  ok (
      mark_last (
        addr_copy sock.remote (flags_remote cr)
        ++ (addr_copy sock.local (flags_local cr) ++ copy_all (take sock.hops sock.repeaters))))

-- The poll bit of an I frame.
abbrev pub i_flag : ℤ → ℕ
i_flag (pos n) = if n == 1 then 1 else 0
i_flag (negsuc n) = 0

-- `control_i`
pub control_i : Mode → ℕ → ℕ → ℕ → ℕ
control_i sabm vr ns flag =
    bit_or (bit_or (bit_and vr 0x07 * 2 ^ 5) (bit_and ns 0x07 * 2 ^ 1)) (flag * 2 ^ 4)
control_i sabme vr ns flag =
    bit_or (bit_or (bit_and vr 0x7f * 2 ^ 9) (bit_and ns 0x7f * 2 ^ 1)) (flag * 2 ^ 8)
control_i dm vr ns flag = 0

-- The control field of the I frame of `ns` that a socket sends.
pub sock_control_i : Sock → ℕ → ℕ
unfolding control_i
sock_control_i sock ns = control_i sock.mode sock.vr ns (i_flag (flow_left sock))

-- `control_ui`
pub control_ui : ℕ → ℕ
control_ui flag = bit_or Kind.ui (flag * 2 ^ 4)

-- `control_s`
pub control_s : Mode → ℕ → ℕ → ℕ → ℕ
control_s sabm vr kind flag =
    bit_or (bit_or (bit_and vr 0x07 * 2 ^ 5) (bit_and kind 0x0f)) (flag * 2 ^ 4)
control_s sabme vr kind flag =
    bit_or (bit_or (bit_and vr 0x7f * 2 ^ 9) (bit_and kind 0x0f)) (flag * 2 ^ 8)
control_s dm vr kind flag = 0

-- `control_u`
unfoldable pub control_u : ℕ → ℕ → ℕ
control_u kind pf = bit_or (bit_and kind 0xef) (pf * 2 ^ 4)

-- PATTY_AX25_FRAME_OVERHEAD
abbrev pub overhead : ℕ
overhead = 73

-- `toobig`
abbrev pub toobig : Sock → ℕ → Bool
toobig sock infolen = ltb (overhead + sock.n_maxlen_tx) infolen

-- The control bytes that frame_send writes.
unfoldable pub sock_control_bytes : Mode → ℕ → List ℕ
sock_control_bytes mode control =
    if is_sabme mode && not (is_control_u control)
    then bit_and control 0x00ff ∷ (bit_and control 0xff00 / 2 ^ 8) ∷ []
    else bit_and control 0x00ff ∷ []

-- The information behind the control field; the empty list stands for no information too.
unfoldable pub sock_info : ℕ → ℕ → List ℕ → List ℕ
sock_info control proto [] = []
sock_info control proto (b ∷ bs) = if is_control_i control then proto ∷ b ∷ bs else b ∷ bs

-- `frame_send`. A frame that does not fit the transmit buffer is written behind it.
unfoldable pub frame_send : Sock → Cr → ℕ → ℕ → List ℕ → Result (List ℕ)
unfolding encode_address sock_control_bytes sock_info
frame_send sock cr control proto info = do
  guard sock.has_iface enetdown
  guard (not (get_or sock.remote.callsign 0 0 == 0)) ebadf
  guard (not (toobig sock (length info))) stale
  address ← encode_address sock cr (overhead + sock.n_maxlen_tx)
  in_buffer (address ++ (sock_control_bytes sock.mode control ++ sock_info control proto info))
      (length sock.tx_buf)

-- patty_ax25_sock_send_rr, _rnr, _rej and _srej
pub send_rr : Sock → Cr → ℕ → Result (List ℕ)
unfolding frame_send control_s
send_rr sock cr pf = frame_send sock cr (control_s sock.mode sock.vr Kind.rr pf) 0 []

pub send_rnr : Sock → Cr → ℕ → Result (List ℕ)
unfolding frame_send control_s
send_rnr sock cr pf = frame_send sock cr (control_s sock.mode sock.vr Kind.rnr pf) 0 []

pub send_rej : Sock → Cr → ℕ → Result (List ℕ)
unfolding frame_send control_s
send_rej sock cr pf = frame_send sock cr (control_s sock.mode sock.vr Kind.rej pf) 0 []

pub send_srej : Sock → Cr → Result (List ℕ)
unfolding frame_send control_s
send_srej sock cr = frame_send sock cr (control_s sock.mode sock.vr Kind.srej 1) 0 []

-- patty_ax25_sock_send_sabm
pub send_sabm : Sock → ℕ → Result (List ℕ)
unfolding frame_send control_u
send_sabm sock pf =
    let kind = if is_sabme sock.mode then Kind.sabme else Kind.sabm in
    frame_send sock command (control_u kind pf) 0 []

-- patty_ax25_sock_send_disc
unfoldable pub send_disc : Sock → ℕ → Result (List ℕ)
unfolding frame_send control_u
send_disc sock pf = frame_send sock command (control_u Kind.disc pf) 0 []

-- The parameters that patty_ax25_sock_send_xid sends. Those that it does not flag are not set.
pub xid_params : Sock → Params
xid_params sock = record {
  flags = 2 ^ 2 + 2 ^ 3 + 2 ^ 6 + 2 ^ 8 + 2 ^ 9 + 2 ^ 10;
  classes = sock.flags_classes;
  hdlc = max_hdlc_2_2;
  info_tx = 0;
  info_rx = 1536 * 2 ^ 3;
  window_tx = 0;
  window_rx = 127;
  ack = sock.n_ack;
  retry = sock.n_retry;
}

-- patty_ax25_sock_send_xid
pub send_xid : Sock → Cr → Result (List ℕ)
unfolding frame_send control_u xid_params
send_xid sock cr = do
  guard sock.has_iface enetdown
  info ← encode_xid (xid_params sock) 256
  frame_send sock cr (control_u Kind.xid 0) 0 info

-- patty_ax25_sock_send_test: `cr` is not looked at.
pub send_test : Sock → Cr → List ℕ → Result (List ℕ)
unfolding frame_send control_u
send_test sock cr info = frame_send sock command (control_u Kind.test 1) 0 info

-- A null of the model is an access outside an array.
pub in_array {ℓ} : {A : Type ℓ} → Option A → Result A
in_array none = fault
in_array (some a) = ok a

-- patty_ax25_sock_resend: no bytes where the slot is empty and nothing is sent.
pub resend : Sock → ℕ → Result (List ℕ)
unfolding frame_send sock_control_i in_array
resend sock seq = in_array (tx_slot sock seq) >>= λ slot.
    if ltb 0 slot.len
    then frame_send sock command (sock_control_i sock seq) sock.proto (take slot.len slot.payload)
    else ok []

-- patty_ax25_sock_resend_pending
pub resend_pending : Sock → Result (Sock × List ℕ)
unfolding resend in_array
resend_pending sock = in_array (tx_slot sock sock.vs) >>= λ slot.
    if is_pending slot
    then (resend sock sock.vs >>= λ sent. ok (record sock { vs = tx_seq sock (sock.vs + 1) }, sent))
    else ok (sock, [])

-- patty_ax25_sock_write on a stream socket, for data that fit one frame.
pub write_stream : Sock → List ℕ → Result (Sock × List ℕ)
unfolding frame_send sock_control_i in_array
write_stream sock buf =
    if is_dm sock.mode
    then err ebadf
    else (in_array (tx_slot_save sock buf) >>= λ saved.
        frame_send saved command (sock_control_i saved saved.vs) saved.proto buf >>= λ sent.
        ok (vs_incr saved, sent))

-- The case for a datagram socket.
pub write_dgram : Sock → List ℕ → Result (List ℕ)
unfolding frame_send control_ui
write_dgram sock buf = frame_send sock command (control_ui 0) sock.proto buf
