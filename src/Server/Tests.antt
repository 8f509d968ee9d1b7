-- ===== src/Server/Tests.antt =====
-- The theorems on the server at concrete inputs.
use patty.Prelude.{
  List, [], arith, drop, false, none, refl, replicate, some, true, ℕ, ◌*◌, ◌++◌, ◌+◌, ◌∷◌, ◌≡◌, ◌≢◌,
}
use patty.Prelude.Int.{pos}
use patty.Result.{Yields, ebadf, err, fault, ok}
use patty.Timer.{Timer, Timespec, start}
use patty.Frame.Kind
use patty.Frame.Control.Bounds.{BelowAt}
use patty.Frame.{Addr, Frame, command, extended, normal, v2_0}
use patty.Frame.Control.{info_bytes}
use patty.Sock.{
  Mode, Sock, State, dm, empty_slot, established, pending_connect, ready, sabm, sabme, stream,
}
use patty.Sock.Params.{Params}
use patty.Sock.Window.{next_seq}
use patty.Sock.Window.Pending.{HasSlots}
use patty.Sock.Window.Invariant.{InRange, sent}
use patty.Sock.Output
use patty.Server.{Link, delivered, sent}
use patty.Server.Action.{◌>>◌}
use patty.Server.Life.Keeps.{Ready}
use patty.Server.Reply.{addr_match, eq_bytes}
use patty.Server.Ack.{handle_rr}
use patty.Server.Ack.Overflow.{handle_rr-fault}
use patty.Server.Info.{handle_i}
use patty.Server.Info.Stream.{Due, next_due, no_more, receive_run, receive_run-stream_of}
use patty.Server.Info.Delivery.{Received, handle_i_again, handle_i_due}
use patty.Server.Connect.{handle_ua}
use patty.Server.Connect.Plain.{handle_ua-ebadf, opened}
use patty.Server.Serve.{not_ready, sock_write}
use patty.Server.Decode.{decode_frame, decode_frame-Below}
use patty.Server.Frames.{handle_frame}
use patty.Server.Frames.Keeps.{handle_frame-InRange}
use patty.Server.Polls.{handle_sock_stream}
use patty.Server.Polls.Keeps.{handle_sock_stream-InRange}

abbrev period : Timer
period = record { ms = 3000; t = record { tv_sec = pos 3; tv_nsec = pos 0 }; running = true }

abbrev station : ℕ → Addr
station ssid = record {
  callsign = (2 * 0x4e) ∷ (2 * 0x30) ∷ (2 * 0x43) ∷ (2 * 0x41) ∷ (2 * 0x4c) ∷ (2 * 0x4c) ∷ [];
  ssid = ssid;
}

-- A socket in a state and a mode, with a frame that waits for its acknowledgement.
abbrev peer : State → Mode → Sock
peer state mode = record {
  proto = 0xf0;
  kind = stream;
  version = v2_0;
  state = state;
  mode = mode;
  flow = ready;
  has_iface = true;
  local = station 2;
  remote = station 4;
  repeaters = [];
  hops = 0;
  tx_buf = replicate 200 0;
  tx_slots =
      record { len = 1; ack = false; payload = 5 ∷ [] }
      ∷ record { len = 1; ack = false; payload = 6 ∷ [] }
      ∷ replicate 6 empty_slot;
  flags_classes = 0;
  flags_hdlc = 0;
  n_maxlen_tx = 127;
  n_maxlen_rx = 127;
  n_window_tx = 4;
  n_window_rx = 4;
  n_ack = 3000;
  n_retry = 10;
  timer_t1 = start period;
  timer_t2 = period;
  timer_t3 = period;
  vs = 2;
  vr = 3;
  va = 0;
  retries = 1;
  rx_pending = 0;
}

abbrev link_to : State → Mode → Link
link_to state mode = record {
  sock = peer state mode;
  assembler = none;
  live = true;
  freed = false;
  watched = true;
  iface = record { addr = station 2; aliases = []; mtu = 300; flags_classes = 0 };
  listener = none;
  calls = [];
  events = [];
}

peer-InRange : InRange (peer established sabm)
unfolding InRange HasSlots
peer-InRange = (sabm_not_dm, refl, omega arith, omega arith, omega arith)
  where
    sabm_not_dm : sabm ≢ dm
    sabm_not_dm h = cc

-- An I frame that acknowledges one frame, with the byte 7.
abbrev numbered : ℕ → Frame
numbered ns = record {
  dest = station 2;
  src = station 4;
  repeaters = [];
  hops = 0;
  control = 2 * ns + 32;
  nr = 1;
  ns = ns;
  pf = 0;
  cr = command;
  kind = Kind.i;
  format = normal;
  version = v2_0;
  proto = 0xf0;
  info = some (7 ∷ []);
  infolen = 1;
}

peer-Ready : Ready 1 (peer established sabm)
unfolding Ready
peer-Ready = (peer-InRange, omega arith)

has_seven : info_bytes (some (7 ∷ [])) 1 ≡ ok (7 ∷ [])
unfolding info_bytes
has_seven = refl

abbrev no_params : Params
no_params = record {
  flags = 0;
  classes = 0;
  hdlc = 0;
  info_tx = 0;
  info_rx = 0;
  window_tx = 0;
  window_rx = 0;
  ack = 0;
  retry = 0;
}

abbrev i_bytes : List ℕ
i_bytes = (station 2).callsign ++ (0xe2 ∷ ((station 4).callsign ++ (0x65 ∷ 0x26 ∷ 0xf0 ∷ 7 ∷ [])))

handle_frame-InRange_example :
    InRange (handle_frame no_params (numbered 0) i_bytes 17 (link_to established sabm)).1.sock
handle_frame-InRange_example =
    handle_frame-InRange no_params (numbered 0) i_bytes 17 (link_to established sabm) refl refl
      peer-InRange

decode_frame-Below_example :
    Yields (BelowAt 8) (decode_frame (link_to established sabm) (numbered 0) i_bytes 17)
decode_frame-Below_example =
    decode_frame-Below (link_to established sabm) (numbered 0) i_bytes 17 refl

handle_i_due_example :
    (next : Sock) × ((handle_i (numbered 3) (link_to established sabm) ≡ (
      ok tt,
      record (link_to established sabm) { sock = next; events = delivered (7 ∷ []) ∷ [] },
    ))
      × Received (peer established sabm) next (next_seq sabm 3))
handle_i_due_example =
    handle_i_due (numbered 3) (7 ∷ []) (link_to established sabm) refl refl peer-Ready refl refl
      has_seven refl refl

handle_i_again_example :
    (next : Sock) × ((handle_i (numbered 1) (link_to established sabm) ≡ (
      ok tt,
      record (link_to established sabm) { sock = next; events = delivered (7 ∷ []) ∷ [] },
    ))
      × Received (peer established sabm) next 3)
handle_i_again_example =
    handle_i_again (numbered 1) (7 ∷ []) (link_to established sabm) refl refl peer-Ready refl refl
      has_seven refl (omega arith)

-- What an RR frame with N(R) of 9 is.
abbrev rr_nine : Frame
rr_nine = record (numbered 0) { nr = 9; kind = Kind.rr; control = 0x1201; format = extended }

handle_rr-fault_example : (handle_rr rr_nine (link_to pending_connect sabme)).0 ≡ fault
handle_rr-fault_example =
    handle_rr-fault rr_nine (link_to pending_connect sabme) refl refl refl (omega arith)
      (omega arith)

matches : addr_match (link_to pending_connect dm).iface (station 2) ≡ true
unfolding addr_match eq_bytes
matches = refl

handle_ua-ebadf_example :
    (handle_ua (numbered 0) >> sock_write (1 ∷ 2 ∷ [])) (link_to pending_connect dm)
    ≡ (err ebadf, opened (link_to pending_connect dm))
handle_ua-ebadf_example =
    handle_ua-ebadf (numbered 0) (1 ∷ 2 ∷ []) (link_to pending_connect dm) matches refl refl refl
      refl

-- The DISC frame of the socket, behind its first byte.
abbrev disc_rest : List ℕ
disc_rest = drop 1 (station 4).callsign ++ (0xe4 ∷ ((station 2).callsign ++ (0x63 ∷ 0x53 ∷ [])))

-- Rounds in which select has come to its timeout, half a millisecond late.
abbrev one_second : Timespec
one_second = record { tv_sec = pos 1; tv_nsec = pos 500_000 }

abbrev run : List (Frame × List ℕ)
run = (numbered 3, 7 ∷ []) ∷ (numbered 4, 7 ∷ []) ∷ []

numbered-Due : (ns : ℕ) → Due sabm ns (numbered ns) (7 ∷ [])
numbered-Due ns = record {
  ns_is = refl;
  nr_is = omega arith;
  proto_is = refl;
  info_is = has_seven;
  pf_is = refl;
}

receive_run-stream_of_example :
    (next : Sock) × ((receive_run run (link_to established sabm) ≡ (
      ok tt,
      record (link_to established sabm) {
        sock = next;
        events = delivered (7 ∷ []) ∷ delivered (7 ∷ []) ∷ [];
      },
    ))
      × (next.vr ≡ 5)
      × InRange next)
receive_run-stream_of_example =
    receive_run-stream_of sabm 3 run (link_to established sabm)
      (next_due (numbered-Due 3) (next_due (numbered-Due 4) no_more)) refl refl peer-InRange refl
      refl refl

handle_sock_stream-InRange_example :
    InRange
      (handle_sock_stream
        (record { tv_sec = pos 4; tv_nsec = pos 0 })
        not_ready
        (link_to established sabm)).1.sock
handle_sock_stream-InRange_example =
    handle_sock_stream-InRange (record { tv_sec = pos 4; tv_nsec = pos 0 }) not_ready
      (link_to established sabm) peer-InRange
