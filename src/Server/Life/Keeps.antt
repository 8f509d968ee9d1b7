-- ===== src/Server/Life/Keeps.antt =====
-- The socket under the functions of its life in server.c, and the property that the frame handlers
-- are followed with.
use patty.Prelude.{false, true, ℕ, ◌&&◌, ◌<◌, ◌≡◌}
use patty.Sock.{Mode, Sock, slot_count}
use patty.Sock.Window.Pending.{HasSlots}
use patty.Sock.Window.Invariant.{InRange}
use patty.Server.Action.Keeps.{
  Keeps, bind-Keeps, done-Keeps, if-Keeps, link-Keeps, modify-Keeps, send-Keeps, then-Keeps,
  watch-Keeps,
}
use patty.Server.Life.{
  is_established, is_stream, shut, sock_close, sock_flow_start, sock_flow_stop, sock_save,
  sock_shutdown,
}

-- A socket in range to which a frame with this N(R) makes sense.
unfoldable pub Ready : ℕ → Sock → Type 0
Ready nr sock = InRange sock × (nr < slot_count sock.mode)

pub InRange-Ready :
    (nr : ℕ) (mode : Mode) (sock : Sock)
    → InRange sock
    → sock.mode ≡ mode
    → nr < slot_count mode
    → Ready nr sock
unfolding Ready
InRange-Ready nr mode sock h same small = (h, rw same small)

pub sock_flow_stop-Keeps : (nr : ℕ) → Keeps (Ready nr) sock_flow_stop
unfolding sock_flow_stop Ready InRange HasSlots
sock_flow_stop-Keeps nr = then-Keeps (watch-Keeps false) (modify-Keeps _ (λ sock h. h))

module _ {P : Sock → Type 0} where
  pub sock_flow_start-Keeps : Keeps P sock_flow_start
  unfolding sock_flow_start
  sock_flow_start-Keeps = watch-Keeps true

  pub sock_close-Keeps : Keeps P sock_close
  unfolding sock_close
  sock_close-Keeps = record { keep = λ l h. h }

  pub sock_save-Keeps : Keeps P sock_save
  unfolding sock_save
  sock_save-Keeps = record { keep = λ l h. h }

pub sock_flow_stop-InRange : Keeps InRange sock_flow_stop
unfolding sock_flow_stop InRange HasSlots
sock_flow_stop-InRange = then-Keeps (watch-Keeps false) (modify-Keeps _ (λ sock h. h))

pub sock_shutdown-InRange : Keeps InRange sock_shutdown
unfolding sock_shutdown shut InRange HasSlots
sock_shutdown-InRange = bind-Keeps (then-Keeps (watch-Keeps false) link-Keeps) (λ l.
    if-Keeps (is_stream l.sock.kind && is_established l.sock.state)
      (then-Keeps (modify-Keeps shut (λ sock h. h)) (send-Keeps _)) done-Keeps)
