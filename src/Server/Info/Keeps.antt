-- ===== src/Server/Info/Keeps.antt =====
-- The sequence numbers of a socket under the frames with information of server.c.
use patty.Prelude.{List, Option, bit_and, ltb, none, not, some, ℕ, ◌&&◌, ◌+◌, ◌-◌, ◌/◌, ◌==◌}
use patty.Result.{Result, eoverflow, stale}
use patty.Frame.{Frame, sub_size}
use patty.Frame.Control.{info_bytes}
use patty.Sock.{Sock}
use patty.Sock.Window.{vr_incr}
use patty.Sock.Window.Pending.{HasSlots}
use patty.Sock.Window.Invariant.{InRange, vr_incr-InRange}
use patty.Sock.Assembler.{Assembler, assembler_pending, assembler_read}
use patty.Server.Action.Keeps.{
  Keeps, bind-Keeps, deliver-Keeps, done-Keeps, fail-Keeps, if-Keeps, lift-Keeps, link-Keeps,
  modify-Keeps, send-Keeps, then-Keeps,
}
use patty.Server.Life.{is_established}
use patty.Server.Life.Keeps.{Ready}
use patty.Server.Reply.Keeps.{reply_dm-Keeps}
use patty.Server.Ack.Keeps.{frame_ack-Keeps}
use patty.Server.Info.{
  acknowledge, acknowledged, count_pending, delayed, deliver_info, deliver_read, deliver_saved,
  handle_i, handle_segment, handle_ui, header_of, is_dgram, proto_fragment, reassemble, receive_i,
  reply_srej, save_bytes, save_segment, segment,
}

module _ {P : Sock → Type 0} where
  reply_srej-Keeps : Keeps P reply_srej
  reply_srej-Keeps = send-Keeps _

  reassemble-Keeps : (f : ℕ → Option Assembler → Result (Option Assembler)) → Keeps P (reassemble f)
  unfolding reassemble
  reassemble-Keeps f = bind-Keeps link-Keeps (λ l.
      bind-Keeps (lift-Keeps (f l.sock.n_maxlen_rx l.assembler))
        (λ asm. record { keep = λ now h. h }))

  deliver_read-Keeps : (bytes : Option (List ℕ)) → Keeps P (deliver_read bytes)
  unfolding deliver_read
  deliver_read-Keeps none = fail-Keeps stale
  deliver_read-Keeps (some bytes) = deliver-Keeps bytes

  deliver_saved-Keeps : Keeps P deliver_saved
  unfolding deliver_saved
  deliver_saved-Keeps = bind-Keeps link-Keeps (λ l.
      bind-Keeps (lift-Keeps (assembler_read l.assembler))
        (λ bytes. then-Keeps (deliver_read-Keeps bytes) (reassemble-Keeps _)))

  save_bytes-Keeps : (frame : Frame) → Keeps P (save_bytes frame)
  unfolding save_bytes
  save_bytes-Keeps frame = bind-Keeps link-Keeps (λ l.
      if-Keeps (ltb (sub_size l.sock.n_maxlen_rx 1) (frame.infolen - 1)) (fail-Keeps eoverflow) (
        bind-Keeps (lift-Keeps (info_bytes frame.info frame.infolen))
          (λ bytes. reassemble-Keeps _)))

  save_segment-Keeps : (frame : Frame) (remaining : ℕ) → Keeps P (save_segment frame remaining)
  unfolding save_segment
  save_segment-Keeps frame remaining = bind-Keeps link-Keeps (λ l.
      if-Keeps (assembler_pending l.assembler remaining)
        (then-Keeps (save_bytes-Keeps frame)
          (if-Keeps (remaining == 0) deliver_saved-Keeps done-Keeps))
        (then-Keeps (reassemble-Keeps _) reply_srej-Keeps))

  segment-Keeps : (frame : Frame) (header : ℕ) → Keeps P (segment frame header)
  unfolding segment
  segment-Keeps frame header =
      let remaining = bit_and header 0x7f in
      let saved = save_segment-Keeps frame remaining in
      bind-Keeps link-Keeps (λ l.
        if-Keeps (not (bit_and header 0x80 == 0))
          (if-Keeps (remaining == 0) reply_srej-Keeps (then-Keeps (reassemble-Keeps _) saved))
          (if-Keeps (ltb 0 remaining && not (frame.infolen == l.sock.n_maxlen_rx)) reply_srej-Keeps
            (if-Keeps (remaining == 0 && ltb l.sock.n_maxlen_rx frame.infolen) reply_srej-Keeps
              saved)))

  pub deliver_info-Keeps : (frame : Frame) → Keeps P (deliver_info frame)
  unfolding deliver_info handle_segment
  deliver_info-Keeps frame =
      if-Keeps (frame.proto == proto_fragment)
        (if-Keeps (ltb frame.infolen 2) reply_srej-Keeps
          (bind-Keeps (lift-Keeps (header_of frame.info)) (segment-Keeps frame)))
        (bind-Keeps (lift-Keeps (info_bytes frame.info frame.infolen)) deliver-Keeps)

  pub handle_ui-Keeps : (frame : Frame) → Keeps P (handle_ui frame)
  unfolding handle_ui
  handle_ui-Keeps frame =
      bind-Keeps link-Keeps
        (λ l. if-Keeps (l.live && is_dgram l.sock.kind) (deliver_info-Keeps frame) done-Keeps)

acknowledge-Keeps : (nr : ℕ) (frame : Frame) → Keeps (Ready nr) (acknowledge frame)
unfolding acknowledge acknowledged delayed count_pending Ready InRange HasSlots
acknowledge-Keeps nr frame =
    if-Keeps (not (frame.pf == 0))
      (then-Keeps (modify-Keeps acknowledged (λ sock h. h)) (send-Keeps _))
      (bind-Keeps (then-Keeps (modify-Keeps count_pending (λ sock h. h)) link-Keeps) (λ l.
        if-Keeps (l.sock.rx_pending == l.sock.n_window_rx / 2)
          (modify-Keeps acknowledged (λ sock h. h)) (modify-Keeps delayed (λ sock h. h))))

receive_i-Keeps : (frame : Frame) → Keeps (Ready frame.nr) (receive_i frame)
unfolding receive_i Ready vr_incr
receive_i-Keeps frame =
    let rest = then-Keeps (deliver_info-Keeps frame) (acknowledge-Keeps frame.nr frame) in
    bind-Keeps (then-Keeps (frame_ack-Keeps frame) link-Keeps) (λ l.
      if-Keeps (frame.ns == l.sock.vr)
        (then-Keeps
          (then-Keeps (modify-Keeps vr_incr (λ sock h. (vr_incr-InRange sock h.0, h.1)))
            (deliver_info-Keeps frame))
          (acknowledge-Keeps frame.nr frame))
        (if-Keeps (frame.ns == l.sock.vr + 1) reply_srej-Keeps
          (if-Keeps (ltb (l.sock.vr + 1) frame.ns) (send-Keeps _) rest)))

pub handle_i-Keeps : (frame : Frame) → Keeps (Ready frame.nr) (handle_i frame)
unfolding handle_i
handle_i-Keeps frame = bind-Keeps link-Keeps (λ l.
    if-Keeps (l.live && is_established l.sock.state) (receive_i-Keeps frame)
      (if-Keeps (not (frame.pf == 0)) (reply_dm-Keeps frame 1) done-Keeps))
