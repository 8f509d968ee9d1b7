-- ===== src/Server/Serve.antt =====
-- Reading from the client of a socket and writing to the peer: handle_sock_dgram and the end of
-- handle_sock of server.c, with patty_ax25_sock_write and _resend_pending as they are called there.
pub mod Keeps
use patty.Prelude.{Bool, List, [], false, if◌then◌else◌, take, true, ℕ, ◌+◌, ◌==◌, ◌∷◌}
use patty.Prelude.Int.{negsuc, pos, ℤ}
use patty.Result.{Errno, Result, ebadf, eio, err, fault, ok}
use patty.Timer
use patty.Timer.{Timer, start, stop}
use patty.Sock.{Sock, SockType, dgram, is_dm, raw, ready, stream}
use patty.Sock.Window.{flow_left, is_pending, tx_seq, tx_slot, tx_slot_save, vs_incr}
use patty.Sock.Output.{frame_send, in_array, resend, sock_control_i, write_dgram}
use patty.Server.{sent}
use patty.Server.Action.{
  Action, Step, attempt, call, done, emit, fail, lift, link, modify, pure, send, transmit, update,
  with_unit, ◌>>=◌, ◌>>◌,
}
use patty.Server.Life.{sock_close, sock_flow_stop, sock_shutdown}
use patty.Frame.{command}

-- What the descriptor of a socket has: nothing to read, or what `read` comes back with.
pub data Input : Type 0 where
  not_ready : Input
  bytes : List ℕ → Input
  end_of_file : Input
  failed : Errno → Input

pub write_kind : SockType → List ℕ → Step
unfolding with_unit
write_kind stream buf = do
  update (λ sock. with_unit (tx_slot_save sock buf))
  send (λ sock. frame_send sock command (sock_control_i sock sock.vs) sock.proto buf)
  modify vs_incr
write_kind dgram buf = send (λ sock. write_dgram sock buf)
write_kind raw buf = call >> emit (sent buf)

-- patty_ax25_sock_write of bytes that fit one frame.
unfoldable pub sock_write : List ℕ → Step
unfolding write_kind
sock_write buf = link >>= λ l. if is_dm l.sock.mode then fail ebadf else write_kind l.sock.kind buf

-- What follows a write: a failure closes the socket.
or_close : Bool → Step → Step
or_close true next = next
or_close false next = sock_close

-- What is read of an input, at most the length of a frame.
pub read_input : Input → ℕ → Result (List ℕ)
read_input not_ready n = ok []
read_input (bytes buf) n = ok (take n buf)
read_input end_of_file n = ok []
read_input (failed e) n = err e

dgram_got : Result (List ℕ) → Step
unfolding or_close
dgram_got (ok []) = sock_close
dgram_got (ok (b ∷ bs)) = attempt (sock_write (b ∷ bs)) >>= λ written. or_close written done
dgram_got (err eio) = sock_close
dgram_got (err e) = fail e
dgram_got fault = lift fault

abbrev pub is_ready : Input → Bool
is_ready not_ready = false
is_ready _ = true

-- handle_sock_dgram
pub handle_sock_dgram : Input → Step
unfolding dgram_got read_input
handle_sock_dgram input =
    link >>= λ l. if is_ready input then dgram_got (read_input input l.sock.n_maxlen_tx) else done

-- patty_ax25_sock_resend_pending with the call of the driver: the bytes sent.
pub resend_step : Action (List ℕ)
resend_step = do
  l ← link
  slot ← lift (in_array (tx_slot l.sock l.sock.vs))
  if is_pending slot
      then (do
        out ← lift (resend l.sock l.sock.vs)
        transmit out
        modify (λ sock. record sock { vs = tx_seq sock (sock.vs + 1) })
        pure out)
      else pure []

abbrev pub start_t1 : Sock → Sock
start_t1 sock = record sock { timer_t1 = Timer.start sock.timer_t1 }

-- What follows a write of a stream socket.
pub wrote : Bool → Step
wrote true = modify (λ sock. record sock {
  timer_t1 = Timer.start sock.timer_t1;
  timer_t3 = Timer.stop sock.timer_t3;
})
wrote false = sock_close

pub stream_got : Result (List ℕ) → Step
unfolding wrote
stream_got (ok []) = attempt sock_shutdown >> done
stream_got (ok (b ∷ bs)) = attempt (sock_write (b ∷ bs)) >>= wrote
stream_got (err eio) = attempt sock_shutdown >> done
stream_got (err e) = fail e
stream_got fault = lift fault

-- What is sent of the input, where no frame was sent again.
pub unless_resent : Input → List ℕ → Step
unfolding stream_got read_input
unless_resent input [] = link >>= λ l. stream_got (read_input input l.sock.n_maxlen_tx)
unless_resent input (b ∷ bs) = modify start_t1

abbrev pub is_one : ℤ → Bool
is_one (pos n) = n == 1
is_one (negsuc n) = false

-- The end of handle_sock.
unfoldable pub serve : Input → Step
unfolding resend_step unless_resent
serve input =
    if is_ready input
    then (do
      modify (λ sock. record sock { flow = ready })
      l ← link
      (if is_one (flow_left l.sock) then sock_flow_stop else done)
      resent ← resend_step
      unless_resent input resent)
    else done
