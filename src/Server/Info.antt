-- ===== src/Server/Info.antt =====
-- Frames with information: handle_segment, handle_i and handle_ui of server.c.
pub mod Keeps
pub mod Delivery
pub mod Stream
use patty.Prelude.{
  Bool, List, Option, bit_and, drop, false, if◌then◌else◌, ltb, none, not, some, true, ℕ, ◌&&◌, ◌+◌,
  ◌-◌, ◌/◌, ◌==◌,
}
use patty.Result.{Result, eoverflow, fault, ok, read, stale}
use patty.Timer
use patty.Frame.{Frame, response, sub_size}
use patty.Sock.{Sock, SockType, dgram}
use patty.Sock.Window.{vr_incr}
use patty.Sock.Assembler.{
  Assembler, assembler_init, assembler_pending, assembler_read, assembler_save, assembler_stop,
}
use patty.Sock.Output.{send_rej, send_rr, send_srej}
use patty.Frame.Control.{info_bytes}
use patty.Server.Action.{Step, deliver, done, fail, lift, link, modify, send, ◌>>=◌, ◌>>◌}
use patty.Server.Life.{is_established}
use patty.Server.Reply.{reply_dm}
use patty.Server.Ack.{frame_ack}

-- PATTY_AX25_PROTO_FRAGMENT
abbrev pub proto_fragment : ℕ
proto_fragment = 0x08

-- An operation of the assembler of the socket.
pub reassemble : (ℕ → Option Assembler → Result (Option Assembler)) → Step
reassemble f = link >>= λ l. lift (f l.sock.n_maxlen_rx l.assembler) >>= λ asm.
    λ now. (ok tt, record now { assembler = asm })

abbrev pub reply_srej : Step
reply_srej = send (λ sock. send_srej sock response)

-- `buf == NULL` where there is no assembler.
pub deliver_read : Option (List ℕ) → Step
deliver_read none = fail stale
deliver_read (some bytes) = deliver bytes

-- What a complete run of segments is delivered as.
pub deliver_saved : Step
unfolding deliver_read reassemble
deliver_saved = do
  l ← link
  bytes ← lift (assembler_read l.assembler)
  deliver_read bytes
  reassemble (λ _ asm. ok (assembler_stop asm))

-- patty_ax25_sock_assembler_save of the bytes behind the header; its test of the length comes before
-- they are read.
pub save_bytes : Frame → Step
unfolding reassemble
save_bytes frame = link >>= λ l.
    if ltb (sub_size l.sock.n_maxlen_rx 1) (frame.infolen - 1)
    then fail eoverflow
    else (lift (info_bytes frame.info frame.infolen) >>= λ bytes.
        reassemble (λ maxlen asm. assembler_save maxlen asm (drop 1 bytes)))

-- The end of handle_segment, behind its tests.
pub save_segment : Frame → ℕ → Step
unfolding save_bytes reassemble deliver_saved
save_segment frame remaining = link >>= λ l.
    if assembler_pending l.assembler remaining
    then save_bytes frame >> (if remaining == 0 then deliver_saved else done)
    else reassemble (λ _ asm. ok (assembler_stop asm)) >> reply_srej

-- The tests of the header byte and the length.
pub segment : Frame → ℕ → Step
unfolding save_segment reassemble
segment frame header = link >>= λ l.
    let remaining = bit_and header 0x7f in
    if not (bit_and header 0x80 == 0)
    then (if remaining == 0
        then reply_srej
        else reassemble (λ maxlen asm. assembler_init maxlen asm (remaining + 1))
          >> save_segment frame remaining)
    else if ltb 0 remaining && not (frame.infolen == l.sock.n_maxlen_rx)
    then reply_srej
    else if remaining == 0 && ltb l.sock.n_maxlen_rx frame.infolen
    then reply_srej
    else save_segment frame remaining

-- `info[0]`
pub header_of : Option (List ℕ) → Result ℕ
header_of none = fault
header_of (some info) = read info 0

-- handle_segment
pub handle_segment : Frame → Step
unfolding segment header_of
handle_segment frame =
    if ltb frame.infolen 2 then reply_srej else lift (header_of frame.info) >>= segment frame

-- The information of a frame, by its protocol.
pub deliver_info : Frame → Step
unfolding handle_segment
deliver_info frame =
    if frame.proto == proto_fragment
    then handle_segment frame
    else lift (info_bytes frame.info frame.infolen) >>= deliver

-- One more frame waits for its acknowledgement.
pub count_pending : Sock → Sock
count_pending sock = record sock { rx_pending = sock.rx_pending + 1 }

-- The assignments where the frame is acknowledged at once, and where it is put off.
pub acknowledged : Sock → Sock
acknowledged sock = record sock { rx_pending = 0; timer_t2 = Timer.stop sock.timer_t2 }

pub delayed : Sock → Sock
delayed sock = record sock {
  timer_t2 = Timer.start sock.timer_t2;
  timer_t3 = Timer.start sock.timer_t3;
}

-- The end of handle_i. The number of pending frames is counted only without the poll bit.
pub acknowledge : Frame → Step
unfolding count_pending acknowledged delayed
acknowledge frame =
    if not (frame.pf == 0)
    then modify acknowledged >> send (λ sock. send_rr sock response 1)
    else modify count_pending >> link >>= λ l.
        if l.sock.rx_pending == l.sock.n_window_rx / 2 then modify acknowledged else modify delayed

-- handle_i on an established socket. A frame with N(S) below V(R) goes the way of the one that is
-- due.
pub receive_i : Frame → Step
unfolding deliver_info acknowledge
receive_i frame = frame_ack frame >> link >>= λ l.
    if frame.ns == l.sock.vr
    then modify vr_incr >> deliver_info frame >> acknowledge frame
    else if frame.ns == l.sock.vr + 1
    then reply_srej
    else if ltb (l.sock.vr + 1) frame.ns
    then send (λ sock. send_rej sock response 1)
    else deliver_info frame >> acknowledge frame

-- handle_i
pub handle_i : Frame → Step
unfolding receive_i
handle_i frame = link >>= λ l.
    if l.live && is_established l.sock.state
    then receive_i frame
    else if not (frame.pf == 0)
    then reply_dm frame 1
    else done

abbrev pub is_dgram : SockType → Bool
is_dgram dgram = true
is_dgram _ = false

-- handle_ui
pub handle_ui : Frame → Step
unfolding deliver_info
handle_ui frame = link >>= λ l. if l.live && is_dgram l.sock.kind then deliver_info frame else done
