-- ===== src/Server/Serve/Keeps.antt =====
-- The sequence numbers of a socket under what the server sends for its client in server.c.
use patty.Prelude.{Bool, List, Option, [], false, none, refl, some, subst, true, ℕ, ◌∷◌, ◌≡◌}
use patty.Result.{Result, ebadf, eio, err, fault, ok}
use patty.Sock.{Sock, SockType, dgram, is_dm, raw, stream}
use patty.Sock.Output.{in_array, resend}
use patty.Sock.Window.{flow_left, is_pending, tx_slot, tx_slot_save, vs_incr}
use patty.Sock.Window.Pending.{HasSlots}
use patty.Sock.Window.Invariant.{InRange}
use patty.Sock.Window.Sending.{resent-InRange, tx_slot_save-InRange, vs_incr-InRange}
use patty.Server.Action.{with_unit}
use patty.Server.Action.Keeps.{
  Keeps, attempt-Keeps, bind-Keeps, call-Keeps, done-Keeps, emit-Keeps, fail-Keeps, if-Keeps,
  lift-Keeps, link-Keeps, modify-Keeps, pure-Keeps, send-Keeps, then-Keeps, transmit-Keeps,
  update-Keeps,
}
use patty.Server.Life.Keeps.{sock_close-Keeps, sock_flow_stop-InRange, sock_shutdown-InRange}
use patty.Server.Serve.{
  Input, is_one, is_ready, read_input, resend_step, serve, sock_write, start_t1, stream_got,
  unless_resent, write_kind, wrote,
}

with_unit-InRange :
    (out : Option Sock) (next : Sock) (a : Unit {0})
    → ((one : Sock) → out ≡ some one → InRange one)
    → with_unit out ≡ some (next, a)
    → InRange next
unfolding with_unit
with_unit-InRange none next a h e = cc
with_unit-InRange (some one) next a h e =
    let same : one ≡ next = cc in subst InRange same (h one refl)

write_kind-Keeps : (kind : SockType) (buf : List ℕ) → Keeps InRange (write_kind kind buf)
unfolding write_kind
write_kind-Keeps stream buf =
    then-Keeps
      (update-Keeps (λ sock next a e h.
        with_unit-InRange (tx_slot_save sock buf) next a
          (λ one found. tx_slot_save-InRange sock one buf found h) e))
      (then-Keeps (send-Keeps _) (modify-Keeps vs_incr vs_incr-InRange))
write_kind-Keeps dgram buf = send-Keeps _
write_kind-Keeps raw buf = then-Keeps call-Keeps (emit-Keeps _)

pub sock_write-Keeps : (buf : List ℕ) → Keeps InRange (sock_write buf)
unfolding sock_write
sock_write-Keeps buf =
    bind-Keeps link-Keeps
      (λ l. if-Keeps (is_dm l.sock.mode) (fail-Keeps ebadf) (write_kind-Keeps l.sock.kind buf))

pub resend_step-Keeps : Keeps InRange resend_step
unfolding resend_step
resend_step-Keeps = bind-Keeps link-Keeps (λ l.
    bind-Keeps (lift-Keeps (in_array (tx_slot l.sock l.sock.vs))) (λ slot.
      if-Keeps (is_pending slot)
        (bind-Keeps (lift-Keeps (resend l.sock l.sock.vs)) (λ out.
          then-Keeps (transmit-Keeps out)
            (then-Keeps (modify-Keeps _ resent-InRange) (pure-Keeps out))))
        (pure-Keeps [])))

wrote-Keeps : (written : Bool) → Keeps InRange (wrote written)
unfolding wrote InRange HasSlots
wrote-Keeps true = modify-Keeps _ (λ sock h. h)
wrote-Keeps false = sock_close-Keeps

stream_got-Keeps : (got : Result (List ℕ)) → Keeps InRange (stream_got got)
unfolding stream_got
stream_got-Keeps (ok []) = then-Keeps (attempt-Keeps sock_shutdown-InRange) done-Keeps
stream_got-Keeps (ok (b ∷ bs)) = bind-Keeps (attempt-Keeps (sock_write-Keeps (b ∷ bs))) wrote-Keeps
stream_got-Keeps (err eio) = then-Keeps (attempt-Keeps sock_shutdown-InRange) done-Keeps
stream_got-Keeps (err e) = fail-Keeps e
stream_got-Keeps fault = lift-Keeps fault

unless_resent-Keeps : (input : Input) (out : List ℕ) → Keeps InRange (unless_resent input out)
unfolding unless_resent InRange HasSlots
unless_resent-Keeps input [] =
    bind-Keeps link-Keeps (λ l. stream_got-Keeps (read_input input l.sock.n_maxlen_tx))
unless_resent-Keeps input (b ∷ bs) = modify-Keeps start_t1 (λ sock h. h)

pub serve-Keeps : (input : Input) → Keeps InRange (serve input)
unfolding serve InRange HasSlots
serve-Keeps input =
    if-Keeps (is_ready input)
      (then-Keeps (modify-Keeps _ (λ sock h. h)) (
        bind-Keeps link-Keeps (λ l.
          then-Keeps (if-Keeps (is_one (flow_left l.sock)) sock_flow_stop-InRange done-Keeps)
            (bind-Keeps resend_step-Keeps (unless_resent-Keeps input)))))
      done-Keeps
