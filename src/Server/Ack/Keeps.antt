-- ===== src/Server/Ack/Keeps.antt =====
-- The sequence numbers of a socket under the acknowledgements of server.c.
use patty.Prelude.{
  Bool-cases, Option, if◌then◌else◌, inl, inr, leb, ltb, none, not, some, subst, ℕ, ◌&&◌, ◌+◌, ◌<◌,
  ◌==◌, ◌≡◌,
}
use patty.Frame.{Cr, Frame, command, is_control_s, response}
use patty.Sock.{Sock, is_sabme, slot_count}
use patty.Sock.Window.{ack_pending, sock_ack}
use patty.Sock.Window.Pending.{HasSlots, waiting}
use patty.Sock.Window.Invariant.{InRange, sock_ack-InRange}
use patty.Server.Action.{Step}
use patty.Server.Action.Keeps.{
  Keeps, bind-Keeps, done-Keeps, if-Keeps, modify-Keeps, on_sock-Keeps, send-Keeps, then-Keeps,
  update-Keeps,
}
use patty.Server.Life.Keeps.{Ready, sock_flow_start-Keeps, sock_flow_stop-Keeps}
use patty.Server.Ack.{
  answer_poll, by_cr, counted, frame_ack, handle_rej, handle_rnr, handle_rr, handle_srej, heard,
  rearm_t1, restart_t1, resume,
}

sock_ack-Ready :
    (nr n : ℕ) (sock next : Sock) (a : ℕ)
    → sock_ack sock n ≡ some (next, a)
    → Ready nr sock
    → Ready nr next
unfolding Ready
sock_ack-Ready nr n sock next a e h =
    let found = sock_ack-InRange sock n h.0 in
    let found_same = found.1.0 in
    let same : found.0.0 ≡ next = cc in
    subst (λ (s : Sock). InRange s × (nr < slot_count s.mode)) same (found.1.1, rw found.1.2 h.1)

counted-Ready :
    (nr : ℕ) (sock next : Sock) (n : Option ℕ) (a : ℕ)
    → counted sock n ≡ some (next, a)
    → Ready nr sock
    → Ready nr next
unfolding counted
counted-Ready nr sock next none a e h = cc
counted-Ready nr sock next (some n) a e h = let same : sock ≡ next = cc in subst (Ready nr) same h

pub heard-Ready : (nr : ℕ) (sock : Sock) → Ready nr sock → Ready nr (heard sock)
unfolding heard Ready InRange HasSlots
heard-Ready nr sock h = h

pub restart_t1-Ready :
    (nr waiting : ℕ) (sock : Sock) → Ready nr sock → Ready nr (restart_t1 waiting sock)
unfolding restart_t1 Ready InRange HasSlots
restart_t1-Ready nr waiting sock h = elim (Bool-cases (ltb 0 waiting)) [
  | inl e ↦ rw e h
  | inr e ↦ rw e h
]

pub resume-Ready : (nr : ℕ) (sock : Sock) → Ready nr sock → Ready nr (resume nr sock)
unfolding resume Ready InRange HasSlots
resume-Ready nr sock h =
    let last =
      if ltb sock.vs sock.va then sock.vs + (if is_sabme sock.mode then 128 else 8) else sock.vs in
    elim (Bool-cases (leb sock.va nr && leb nr last)) [
      | inl e ↦ rw e ((h.0.0, h.0.1, h.1, h.0.3, h.0.4), h.1)
      | inr e ↦ rw e h
    ]

answer_poll-Keeps : {P : Sock → Type 0} (frame : Frame) → Keeps P (answer_poll frame)
answer_poll-Keeps frame = if-Keeps (not (frame.pf == 0)) (send-Keeps _) done-Keeps

-- The acknowledgement in a frame keeps a socket in range, if its N(R) is a sequence number.
pub frame_ack-Keeps : (frame : Frame) → Keeps (Ready frame.nr) (frame_ack frame)
unfolding frame_ack rearm_t1
frame_ack-Keeps frame = then-Keeps (modify-Keeps heard (heard-Ready frame.nr)) (
    bind-Keeps (update-Keeps (λ sock next a. sock_ack-Ready frame.nr frame.nr sock next a))
      (λ fresh.
        then-Keeps
          (if-Keeps (ltb 0 fresh)
            (bind-Keeps
              (update-Keeps (λ sock next a. counted-Ready frame.nr sock next (ack_pending sock) a))
              (λ waiting. modify-Keeps _ (restart_t1-Ready frame.nr waiting)))
            done-Keeps)
          (if-Keeps (is_control_s frame.control && not (frame.pf == 0))
            (modify-Keeps _ (resume-Ready frame.nr)) done-Keeps)))

by_cr-Keeps :
    {P : Sock → Type 0} (cr : Cr) {m k : Step} → Keeps P m → Keeps P k → Keeps P (by_cr cr m k)
unfolding by_cr
by_cr-Keeps command hm hk = hm
by_cr-Keeps response hm hk = hk
by_cr-Keeps Cr.old hm hk = done-Keeps

pub handle_rr-Keeps : (frame : Frame) → Keeps (Ready frame.nr) (handle_rr frame)
unfolding handle_rr
handle_rr-Keeps frame = on_sock-Keeps (
    then-Keeps (frame_ack-Keeps frame)
      (by_cr-Keeps frame.cr (answer_poll-Keeps frame) sock_flow_start-Keeps))

pub handle_rnr-Keeps : (frame : Frame) → Keeps (Ready frame.nr) (handle_rnr frame)
unfolding handle_rnr
handle_rnr-Keeps frame = on_sock-Keeps (
    then-Keeps (frame_ack-Keeps frame)
      (by_cr-Keeps frame.cr (answer_poll-Keeps frame) (sock_flow_stop-Keeps frame.nr)))

pub handle_rej-Keeps : (frame : Frame) → Keeps (Ready frame.nr) (handle_rej frame)
unfolding handle_rej
handle_rej-Keeps frame = on_sock-Keeps (
    then-Keeps (frame_ack-Keeps frame)
      (by_cr-Keeps frame.cr (answer_poll-Keeps frame) sock_flow_start-Keeps))

pub handle_srej-Keeps : (frame : Frame) → Keeps (Ready frame.nr) (handle_srej frame)
unfolding handle_srej
handle_srej-Keeps frame = on_sock-Keeps (then-Keeps (frame_ack-Keeps frame) (send-Keeps _))
