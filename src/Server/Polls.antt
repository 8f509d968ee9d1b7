-- ===== src/Server/Polls.antt =====
-- What the server does for each socket in a round of its loop: the timers of
-- handle_sock of server.c.
pub mod Timeout
pub mod Seconds
pub mod Keeps
use patty.Prelude.{Bool, List, [], false, if◌then◌else◌, some, true, ℕ, ◌&&◌, ◌==◌, ◌∷◌}
use patty.Result.{Result, err, etimedout, fault, ok}
use patty.Timer
use patty.Timer.{Timer, Timespec, expired, start, stop, tick}
use patty.Sock.{Sock, State, established, pending_accept, pending_connect, pending_disconnect}
use patty.Sock.Output.{send_disc, send_rr, send_sabm, send_xid}
use patty.Server.{Link}
use patty.Server.Action.{Step, attempt, done, link, modify, send, ◌>>=◌, ◌>>◌}
use patty.Server.Life.{sock_close, sock_shutdown}
use patty.Server.Reply.{respond_connect}
use patty.Frame.{command, response, sub_size}
use patty.Server.Serve.{Input, resend_step, serve, start_t1}

-- `sock->retries--` on a size_t.
pub spend : Sock → Sock
spend sock = record sock { retries = sub_size sock.retries 1 }

-- What an expired timer T1 leads to, while there are retries, and then.
pub retrying : Step → Step → Step
unfolding spend
retrying more last = link >>= λ l.
    if l.sock.retries == 0 then modify spend >> last else modify spend >> modify start_t1 >> more

-- `a || b` as a return value, which is never negative.
pub either : Result (List ℕ) × Link → Step → Result (Unit {0}) × Link
either (ok [], l) next = (attempt next >> done) l
either (ok (b ∷ bs), l) next = (ok tt, l)
either (err e, l) next = (ok tt, l)
either (fault, l) next = (fault, l)

pub poll_peer : Step
unfolding either
poll_peer l = either (resend_step l) (send (λ sock. send_rr sock command 1))

pub tick_all : Timespec → Sock → Sock
tick_all elapsed sock = record sock {
  timer_t1 = Timer.tick sock.timer_t1 elapsed;
  timer_t2 = Timer.tick sock.timer_t2 elapsed;
  timer_t3 = Timer.tick sock.timer_t3 elapsed;
}

-- Timer T1 of each state.
pub on_t1 : State → Step
unfolding retrying poll_peer
on_t1 pending_accept = retrying (send (λ sock. send_xid sock response)) sock_close
on_t1 pending_connect =
    retrying (send (λ sock. send_sabm sock 1))
      (attempt sock_shutdown >> sock_close >> respond_connect (some etimedout))
on_t1 established = retrying poll_peer (attempt sock_shutdown >> sock_close)
on_t1 pending_disconnect = retrying (send (λ sock. send_disc sock 1)) sock_close
on_t1 _ = done

-- Timer T3 of an established socket.
pub on_t3 : Input → Step
on_t3 input = link >>= λ l.
    if Timer.expired l.sock.timer_t3
    then modify (λ sock. record sock {
      retries = sock.n_retry;
      timer_t1 = Timer.start sock.timer_t1;
      timer_t3 = Timer.stop sock.timer_t3;
    })
      >> send (λ sock. send_rr sock command 1)
    else serve input

-- Timer T2 of an established socket, and what follows.
pub on_t2 : Input → Step
unfolding on_t3
on_t2 input = link >>= λ l.
    if Timer.expired l.sock.timer_t2
    then modify (λ sock. record sock { timer_t2 = Timer.stop sock.timer_t2 })
      >> (if l.sock.rx_pending == 0
          then on_t3 input
          else modify (λ sock. record sock { rx_pending = 0 })
            >> send (λ sock. send_rr sock response 1))
    else on_t3 input

-- The switch on the state, where timer T1 has not expired.
pub without_t1 : State → Input → Step
unfolding on_t2
without_t1 pending_accept input = done
without_t1 pending_connect input = done
without_t1 established input = on_t2 input
without_t1 _ input = serve input

abbrev pub has_t1 : State → Bool
has_t1 pending_accept = true
has_t1 pending_connect = true
has_t1 established = true
has_t1 pending_disconnect = true
has_t1 _ = false

-- The case of handle_sock for a stream socket.
pub handle_sock_stream : Timespec → Input → Step
unfolding tick_all on_t1 without_t1
handle_sock_stream elapsed input = do
  modify (tick_all elapsed)
  l ← link
  if has_t1 l.sock.state && Timer.expired l.sock.timer_t1
      then on_t1 l.sock.state
      else without_t1 l.sock.state input
