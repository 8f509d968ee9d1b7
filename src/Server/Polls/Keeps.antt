-- ===== src/Server/Polls/Keeps.antt =====
-- The sequence numbers of a socket under a round of handle_sock of server.c.
use patty.Prelude.{List, [], ℕ, ◌&&◌, ◌==◌, ◌∷◌}
use patty.Result.{Result, err, fault, ok}
use patty.Timer
use patty.Timer.{Timer, Timespec, expired}
use patty.Sock.{State, established, pending_accept, pending_connect, pending_disconnect}
use patty.Sock.Window.Pending.{HasSlots}
use patty.Sock.Window.Invariant.{InRange}
use patty.Server.{Link}
use patty.Server.Action.{Step}
use patty.Server.Action.Keeps.{
  Keeps, attempt-Keeps, bind-Keeps, done-Keeps, if-Keeps, link-Keeps, modify-Keeps, send-Keeps,
  then-Keeps,
}
use patty.Server.Life.Keeps.{sock_close-Keeps, sock_shutdown-InRange}
use patty.Server.Reply.Keeps.{respond_connect-Keeps}
use patty.Server.Serve.{Input, resend_step, start_t1}
use patty.Server.Serve.Keeps.{resend_step-Keeps, serve-Keeps}
use patty.Server.Polls.{
  either, handle_sock_stream, has_t1, on_t1, on_t2, on_t3, poll_peer, retrying, spend, tick_all,
  without_t1,
}

retrying-Keeps :
    (more last : Step)
    → Keeps InRange more
    → Keeps InRange last
    → Keeps InRange (retrying more last)
unfolding retrying spend InRange HasSlots
retrying-Keeps more last hm hl = bind-Keeps link-Keeps (λ l.
    if-Keeps (l.sock.retries == 0) (then-Keeps (modify-Keeps spend (λ sock h. h)) hl) (
      then-Keeps
        (then-Keeps (modify-Keeps spend (λ sock h. h)) (modify-Keeps start_t1 (λ sock h. h))) hm))

either-Keeps :
    (out : Result (List ℕ) × Link) (next : Step)
    → Keeps InRange next
    → InRange out.1.sock
    → InRange (either out next).1.sock
unfolding either
either-Keeps (ok [], l) next hn h =
    (then-Keeps {P = InRange} (attempt-Keeps hn) done-Keeps).keep l h
either-Keeps (ok (b ∷ bs), l) next hn h = h
either-Keeps (err e, l) next hn h = h
either-Keeps (fault, l) next hn h = h

poll_peer-Keeps : Keeps InRange poll_peer
unfolding poll_peer
poll_peer-Keeps = record {
  keep = λ l h. either-Keeps (resend_step l) _ (send-Keeps _) (resend_step-Keeps.keep l h);
}

on_t1-Keeps : (state : State) → Keeps InRange (on_t1 state)
unfolding on_t1
on_t1-Keeps pending_accept = retrying-Keeps _ _ (send-Keeps _) sock_close-Keeps
on_t1-Keeps pending_connect = retrying-Keeps _ _ (send-Keeps _) (
    then-Keeps (then-Keeps (attempt-Keeps sock_shutdown-InRange) sock_close-Keeps)
      (respond_connect-Keeps _))
on_t1-Keeps established =
    retrying-Keeps _ _ poll_peer-Keeps
      (then-Keeps (attempt-Keeps sock_shutdown-InRange) sock_close-Keeps)
on_t1-Keeps pending_disconnect = retrying-Keeps _ _ (send-Keeps _) sock_close-Keeps
on_t1-Keeps _ = done-Keeps

on_t3-Keeps : (input : Input) → Keeps InRange (on_t3 input)
unfolding on_t3 InRange HasSlots
on_t3-Keeps input = bind-Keeps link-Keeps (λ l.
    if-Keeps (Timer.expired l.sock.timer_t3)
      (then-Keeps (modify-Keeps _ (λ sock h. h)) (send-Keeps _)) (serve-Keeps input))

on_t2-Keeps : (input : Input) → Keeps InRange (on_t2 input)
unfolding on_t2 InRange HasSlots
on_t2-Keeps input = bind-Keeps link-Keeps (λ l.
    if-Keeps (Timer.expired l.sock.timer_t2)
      (then-Keeps (modify-Keeps _ (λ sock h. h)) (
        if-Keeps (l.sock.rx_pending == 0) (on_t3-Keeps input)
          (then-Keeps (modify-Keeps _ (λ sock h. h)) (send-Keeps _))))
      (on_t3-Keeps input))

without_t1-Keeps : (state : State) (input : Input) → Keeps InRange (without_t1 state input)
unfolding without_t1
without_t1-Keeps pending_accept input = done-Keeps
without_t1-Keeps pending_connect input = done-Keeps
without_t1-Keeps established input = on_t2-Keeps input
without_t1-Keeps _ input = serve-Keeps input

handle_sock_stream-Keeps :
    (elapsed : Timespec) (input : Input) → Keeps InRange (handle_sock_stream elapsed input)
unfolding handle_sock_stream tick_all InRange HasSlots
handle_sock_stream-Keeps elapsed input =
    then-Keeps (modify-Keeps (tick_all elapsed) (λ sock h. h)) (
      bind-Keeps link-Keeps (λ l.
        if-Keeps (has_t1 l.sock.state && Timer.expired l.sock.timer_t1) (on_t1-Keeps l.sock.state)
          (without_t1-Keeps l.sock.state input)))

-- A round of handle_sock leaves the sequence numbers of a stream socket in the range of its mode,
-- whatever its state and its timers, whatever its client writes, and whatever the calls of the
-- system come back with.
pub handle_sock_stream-InRange :
    (elapsed : Timespec) (input : Input) (l : Link)
    → InRange l.sock
    → InRange (handle_sock_stream elapsed input l).1.sock
handle_sock_stream-InRange elapsed input l h = (handle_sock_stream-Keeps elapsed input).keep l h
