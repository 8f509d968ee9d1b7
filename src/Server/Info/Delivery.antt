-- ===== src/Server/Info/Delivery.antt =====
-- What handle_i of server.c does with an I frame on an established link.
use patty.Prelude.{
  Bool-cases, List, [], ap₂, arith, false, if◌then◌else◌, inl, inr, ltb, not, refl, true, ℕ, ◌&&◌,
  ◌+◌, ◌/◌, ◌<◌, ◌==◌, ◌∷◌, ◌≡◌, ◌≤◌,
}
use patty.Result.{ok}
use patty.Frame.{Frame}
use patty.Frame.Control.{info_bytes}
use patty.Sock.{Sock}
use patty.Sock.Window.Invariant.{InRange, vr_incr-InRange}
use patty.Sock.Window.Pending.{HasSlots}
use patty.Sock.Window.{next_seq, vr_incr}
use patty.Server.{Link, delivered}
use patty.Server.Action.{call, deliver, emit, lift, link, modify, ◌>>=◌, ◌>>◌}
use patty.Server.Life.{is_established}
use patty.Server.Action.Silent.{called-none}
use patty.Server.Life.Keeps.{Ready}
use patty.Server.Ack.Silent.{frame_ack_silent}
use patty.Server.Info.{
  acknowledge, acknowledged, count_pending, delayed, deliver_info, handle_i, proto_fragment,
  receive_i,
}

-- What the last part of handle_i makes of the socket, where there is no poll bit.
abbrev settle : Sock → Sock
settle sock =
    let now = count_pending sock in
    if now.rx_pending == now.n_window_rx / 2 then acknowledged now else delayed now

deliver_info-ok :
    (frame : Frame) (bytes : List ℕ) (l : Link)
    → (frame.proto == proto_fragment) ≡ false
    → info_bytes frame.info frame.infolen ≡ ok bytes
    → l.calls ≡ []
    → deliver_info frame l ≡ (ok tt, record l { events = delivered bytes ∷ l.events })
unfolding deliver_info lift ◌>>=◌ deliver ◌>>◌ call emit
deliver_info-ok frame bytes l proto info calls = rw (proto, info, called-none l.calls l calls) refl

acknowledge-settle :
    (frame : Frame) (l : Link)
    → frame.pf ≡ 0
    → acknowledge frame l ≡ (ok tt, record l { sock = settle l.sock })
unfolding acknowledge ◌>>=◌ ◌>>◌ modify link
acknowledge-settle frame l pf =
    let test = (count_pending l.sock).rx_pending == (count_pending l.sock).n_window_rx / 2 in
    let no_poll : not (frame.pf == 0) ≡ false = ground (arith, pf) in
    elim (Bool-cases test) [ inl e ↦ rw (no_poll, e) refl | inr e ↦ rw (no_poll, e) refl ]

-- The socket after the frame, where it was `a` before.
pub record Received (a next : Sock) (vr : ℕ) : Type 0 where
  pub vr_now : next.vr ≡ vr
  pub mode_now : next.mode ≡ a.mode
  pub pending_now : next.rx_pending ≤ 1
  pub state_now : next.state ≡ a.state
  pub in_range : InRange next

settle-Received :
    (a sock : Sock) (vr : ℕ)
    → sock.vr ≡ vr
    → sock.mode ≡ a.mode
    → sock.rx_pending ≡ 0
    → sock.state ≡ a.state
    → InRange sock
    → Received a (settle sock) vr
unfolding count_pending acknowledged delayed InRange HasSlots
settle-Received a sock vr same mode none_pending state h =
    elim (Bool-cases (sock.rx_pending + 1 == sock.n_window_rx / 2)) [
      | inl e ↦ rw e (record {
        vr_now = same;
        mode_now = mode;
        pending_now = omega arith;
        state_now = state;
        in_range = h;
      })
      | inr e ↦ rw e (record {
        vr_now = same;
        mode_now = mode;
        pending_now = omega (arith, none_pending);
        state_now = state;
        in_range = h;
      })
    ]

module _ (frame : Frame) (bytes : List ℕ) (l : Link) (live : l.live ≡ true)
    (state : is_established l.sock.state ≡ true) (ready_now : Ready frame.nr l.sock)
    (calls : l.calls ≡ []) (proto : (frame.proto == proto_fragment) ≡ false)
    (info : info_bytes frame.info frame.infolen ≡ ok bytes) (pf : frame.pf ≡ 0) where
  -- An I frame with the N(S) that is due and a sequence number as its N(R), without the poll bit
  -- and not of a segment, on an established link with its socket in range and whose system calls
  -- succeed: handle_i writes its information to the client once and nothing else, sends no frame,
  -- counts V(R) on, and leaves the socket established and in range. At most one frame then waits
  -- for its acknowledgement, whatever the window.
  pub handle_i_due :
      frame.ns ≡ l.sock.vr
      → (next : Sock) × ((handle_i frame l
            ≡ (ok tt, record l { sock = next; events = delivered bytes ∷ l.events }))
          × Received l.sock next (next_seq l.sock.mode l.sock.vr))
  unfolding handle_i receive_i Ready ◌>>=◌ ◌>>◌ link modify vr_incr
  handle_i_due due =
      let acks = frame_ack_silent frame l ready_now in
      let s = acks.0 in
      let same = acks.1.2 in
      let ready_after = acks.1.1.0 in
      let is_due : (frame.ns == s.vr) ≡ true = ground (arith, due, same.0) in
      let inside : (l.live && is_established l.sock.state) ≡ true = rw (live, state) refl in
      let told = deliver_info-ok frame bytes (record l { sock = vr_incr s }) proto info calls in
      let settled =
        acknowledge-settle frame
          (record l { sock = vr_incr s; events = delivered bytes ∷ l.events }) pf in
      (
        settle (vr_incr s),
        (
          rw (inside, acks.1.0, is_due, told, settled) refl,
          settle-Received l.sock (vr_incr s) _ (ap₂ next_seq same.1 same.0) same.1 same.2 same.4
              (vr_incr-InRange s ready_after),
        ),
      )

  -- An I frame with an N(S) below V(R), which has come before, and otherwise as one that is due (a
  -- sequence number as its N(R), no poll bit, not of a segment, an established link in range whose
  -- system calls succeed): handle_i writes its information to the client again, and leaves V(R).
  pub handle_i_again :
      frame.ns < l.sock.vr
      → (next : Sock) × ((handle_i frame l
            ≡ (ok tt, record l { sock = next; events = delivered bytes ∷ l.events }))
          × Received l.sock next l.sock.vr)
  unfolding handle_i receive_i Ready ◌>>=◌ ◌>>◌ link
  handle_i_again old =
      let acks = frame_ack_silent frame l ready_now in
      let s = acks.0 in
      let same = acks.1.2 in
      let ready_after = acks.1.1.0 in
      let not_due : (frame.ns == s.vr) ≡ false = ground (arith, old, same.0) in
      let not_next : (frame.ns == s.vr + 1) ≡ false = ground (arith, old, same.0) in
      let not_later : ltb (s.vr + 1) frame.ns ≡ false = ground (arith, old, same.0) in
      let inside : (l.live && is_established l.sock.state) ≡ true = rw (live, state) refl in
      let told = deliver_info-ok frame bytes (record l { sock = s }) proto info calls in
      let settled =
        acknowledge-settle frame (record l { sock = s; events = delivered bytes ∷ l.events }) pf in
      (
        settle s,
        (
          rw (inside, acks.1.0, not_due, not_next, not_later, told, settled) refl,
          settle-Received l.sock s _ same.0 same.1 same.2 same.4 ready_after,
        ),
      )
