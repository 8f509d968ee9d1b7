-- ===== src/Server/Ack/Silent.antt =====
-- What frame_ack of server.c does besides changing the socket.
use patty.Prelude.{
  Bool-cases, ap, if◌then◌else◌, inl, inr, leb, ltb, not, refl, some, ℕ, ◌&&◌, ◌+◌, ◌==◌, ◌∙◌, ◌≡◌,
}
use patty.Result.{ok}
use patty.Frame.{Frame, is_control_s}
use patty.Sock.{Sock, is_sabme}
use patty.Sock.Window.{ack_pending, sock_ack}
use patty.Sock.Window.Pending.{ack_pending-waiting, waiting}
use patty.Sock.Window.Invariant.{InRange, sock_ack-InRange}
use patty.Sock.Window.Local.{sock_ack-OnlyWindow}
use patty.Server.{Link}
use patty.Server.Action.{done, modify, update, ◌>>=◌, ◌>>◌}
use patty.Server.Action.Silent.{
  Silent, bind-Silent, done-Silent, if-Silent, modify-Silent, then-Silent, update-Silent,
}
use patty.Server.Life.Keeps.{Ready}
use patty.Server.Ack.{counted, frame_ack, heard, rearm_t1, restart_t1, resume}
use patty.Server.Ack.Keeps.{heard-Ready, restart_t1-Ready, resume-Ready}

-- What the receiver of I frames looks at is the same.
abbrev pub Alike : Sock → Sock → Type 0
Alike a b =
    (b.vr ≡ a.vr)
    × (b.mode ≡ a.mode)
    × (b.rx_pending ≡ a.rx_pending)
    × (b.n_window_rx ≡ a.n_window_rx)
    × (b.state ≡ a.state)

abbrev Kept : ℕ → Sock → Sock → Type 0
Kept nr a b = Ready nr b × Alike a b

sock_ack-Kept :
    (nr : ℕ) (a sock : Sock)
    → Kept nr a sock
    → (out : Sock × ℕ) × ((sock_ack sock nr ≡ some out) × Kept nr a out.0)
unfolding Ready
sock_ack-Kept nr a sock h =
    let found = sock_ack-InRange sock nr h.0.0 in
    let only = sock_ack-OnlyWindow sock nr found.0 found.1.0 in
    (
      found.0,
      (
        found.1.0,
        (
          (found.1.1, rw found.1.2 h.0.1),
          (
            ap (λ (s : Sock). s.vr) only ∙ h.1.0,
            found.1.2 ∙ h.1.1,
            ap (λ (s : Sock). s.rx_pending) only ∙ h.1.2,
            ap (λ (s : Sock). s.n_window_rx) only ∙ h.1.3,
            ap (λ (s : Sock). s.state) only ∙ h.1.4,
          ),
        ),
      ),
    )

counted-Kept :
    (nr : ℕ) (a sock : Sock)
    → Kept nr a sock
    → (out : Sock × ℕ) × ((counted sock (ack_pending sock) ≡ some out) × Kept nr a out.0)
unfolding Ready InRange counted
counted-Kept nr a sock h =
    ((sock, waiting sock.tx_slots), (rw (ack_pending-waiting sock h.0.0.1) refl, h))

restart_t1-Kept :
    (nr : ℕ) (a : Sock) (n : ℕ) (sock : Sock) → Kept nr a sock → Kept nr a (restart_t1 n sock)
unfolding restart_t1
restart_t1-Kept nr a n sock h = (restart_t1-Ready nr n sock h.0, alike)
  where
    alike : Alike a (restart_t1 n sock)
    alike = elim (Bool-cases (ltb 0 n)) [ inl e ↦ rw e h.1 | inr e ↦ rw e h.1 ]

resume-Kept : (nr : ℕ) (a sock : Sock) → Kept nr a sock → Kept nr a (resume nr sock)
unfolding resume
resume-Kept nr a sock h = (resume-Ready nr sock h.0, alike)
  where
    alike : Alike a (resume nr sock)
    alike =
        let last =
          if ltb sock.vs sock.va
          then sock.vs + (if is_sabme sock.mode then 128 else 8)
          else sock.vs in
        elim (Bool-cases (leb sock.va nr && leb nr last)) [ inl e ↦ rw e h.1 | inr e ↦ rw e h.1 ]

-- On a socket in range, for a frame with a sequence number as its N(R), frame_ack succeeds and
-- changes only the socket: it stays in range, with its V(R), mode, state and receive window, and
-- no frame of its peer waits for an acknowledgement.
pub frame_ack_silent :
    (frame : Frame) (l : Link)
    → Ready frame.nr l.sock
    → (next : Sock) × ((frame_ack frame l ≡ (ok tt, record l { sock = next }))
        × Ready frame.nr next
        × Alike (record l.sock { rx_pending = 0 }) next)
unfolding frame_ack rearm_t1 ◌>>◌ modify heard
frame_ack_silent frame l h =
    let nr = frame.nr in
    let a = heard l.sock in
    let rest : Silent (Kept nr a) (
        update (λ sock. sock_ack sock frame.nr) >>= (λ fresh.
          (if ltb 0 fresh then rearm_t1 else done)
          >> (if is_control_s frame.control && not (frame.pf == 0)
              then modify (resume frame.nr)
              else done))) =
      bind-Silent (update-Silent _ (sock_ack-Kept nr a)) (λ fresh.
        then-Silent
          (if-Silent (ltb 0 fresh)
            (bind-Silent (update-Silent _ (counted-Kept nr a))
              (λ waiting. modify-Silent _ (restart_t1-Kept nr a waiting)))
            done-Silent)
          (if-Silent (is_control_s frame.control && not (frame.pf == 0))
            (modify-Silent _ (resume-Kept nr a)) done-Silent)) in
    let out =
      rest.run (record l { sock = a }) (heard-Ready nr l.sock h, (refl, refl, refl, refl, refl)) in
    (out.1, (out.2.0, out.2.1.0, out.2.1.1))
