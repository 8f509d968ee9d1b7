-- ===== src/Sock/Tests.antt =====
-- The theorems on sockets at concrete inputs.
use patty.Prelude.{
  All, List, [], arith, false, get_elem?, if◌then◌else◌, ltb, none, refl, replicate, some, true, ℕ,
  ◌*◌, ◌++◌, ◌+◌, ◌/◌, ◌^◌, ◌∷◌, ◌≡◌, ◌≢◌,
}
use patty.Prelude.Int.{pos}
use patty.Result.{ok, ◌>>=◌}
use patty.Timer.{Timer}
use patty.Frame.{Addr, Frame, command, extended, normal, v2_0}
use patty.Frame.Kind
use patty.Frame.Address
use patty.Frame.Address.{addr_copy, copy_all, flags_local, flags_remote}
use patty.Frame.Control
use patty.Frame.Control.{
  append_info, classify, control_bytes, encode, has_info, in_buffer, info_bytes,
}
use patty.Frame.Control.Fields.{i_frame}
use patty.Sock.{Mode, Slot, Sock, dm, empty_slot, established, ready, sabm, sabme, stream}
use patty.Sock.Assembler.{assembler_init, assembler_read}
use patty.Sock.Assembler.Reassembly.{accept_all, assembler_read-joined, no_assembler}
use patty.Sock.Params.{Params}
use patty.Sock.Window.{flow_left, is_pending, sock_ack, tx_slot_save, vs_incr}
use patty.Sock.Window.Ring.{ahead}
use patty.Sock.Window.Acks.{slot_acked, sock_ack-slots}
use patty.Sock.Window.Advance.{sock_ack-va}
use patty.Sock.Window.Pending.{Acked, HasSlots}
use patty.Sock.Window.Invariant.{
  Fits, InRange, Op, acked, advance, received, restart, run_ops, run_ops-InRange, save, sent,
}
use patty.Sock.Output.{control_i, frame_send, i_flag, resend, write_stream}
use patty.Sock.Output.Control.{classify-control_i_extended}
use patty.Sock.Output.Whole.{frame_of, frame_send-encode_frame}
use patty.Sock.Output.Resend.{write_stream-resend}

abbrev idle : Timer
idle = record { ms = 3000; t = record { tv_sec = pos 0; tv_nsec = pos 0 }; running = false }

abbrev station : ℕ → Addr
station ssid = record {
  callsign = (2 * 0x4e) ∷ (2 * 0x30) ∷ (2 * 0x43) ∷ (2 * 0x41) ∷ (2 * 0x4c) ∷ (2 * 0x4c) ∷ [];
  ssid = ssid;
}

-- A socket on a link in a mode, with two slots in use, one of them acknowledged.
abbrev linked : Mode → Sock
linked mode = record {
  proto = 0xf0;
  kind = stream;
  version = v2_0;
  state = established;
  mode = mode;
  flow = ready;
  has_iface = true;
  local = station 2;
  remote = station 4;
  repeaters = [];
  hops = 0;
  tx_buf = replicate 200 0;
  tx_slots =
      record { len = 1; ack = true; payload = 5 ∷ [] }
      ∷ record { len = 1; ack = false; payload = 6 ∷ [] }
      ∷ replicate 6 empty_slot;
  flags_classes = 0;
  flags_hdlc = 0;
  n_maxlen_tx = 127;
  n_maxlen_rx = 127;
  n_window_tx = 4;
  n_window_rx = 4;
  n_ack = 3000;
  n_retry = 10;
  timer_t1 = idle;
  timer_t2 = idle;
  timer_t3 = idle;
  vs = 2;
  vr = 3;
  va = 1;
  retries = 10;
  rx_pending = 0;
}

linked-HasSlots : HasSlots (linked sabm)
unfolding HasSlots
linked-HasSlots = refl

linked-InRange : InRange (linked sabm)
unfolding InRange
linked-InRange = (sabm_not_dm, linked-HasSlots, omega arith, omega arith, omega arith)
  where
    sabm_not_dm : sabm ≢ dm
    sabm_not_dm h = cc

abbrev waits : Slot
waits = record { len = 1; ack = false; payload = 6 ∷ [] }

waits-is_pending : is_pending waits ≡ true
unfolding is_pending
waits-is_pending = refl

-- Three slots wait, and V(A) is the number of the last slot.
abbrev around_end : Sock
around_end = record (linked sabm) {
  tx_slots = waits ∷ waits ∷ replicate 5 empty_slot ++ (waits ∷ []);
  va = 7;
}

around_end-HasSlots : HasSlots around_end
unfolding HasSlots
around_end-HasSlots = refl

sock_ack-slots_example :
    (after : Sock × ℕ) × ((sock_ack around_end 1 ≡ some after)
      × Acked around_end 0 after
      × (get_elem? after.0.tx_slots 0
          ≡ some (if ltb (ahead 8 7 0) (ahead 8 7 1) then slot_acked waits else waits)))
sock_ack-slots_example =
    sock_ack-slots around_end 1 0 waits around_end-HasSlots (omega arith) (omega arith)
      (omega arith) refl

sock_ack-va_example : (after : Sock × ℕ) × ((sock_ack around_end 1 ≡ some after) × (after.0.va ≡ 1))
sock_ack-va_example =
    sock_ack-va around_end 1 waits around_end-HasSlots (omega arith) (omega arith) (omega arith)
      refl waits-is_pending

abbrev life : List Op
life = save (1 ∷ 2 ∷ []) ∷ sent ∷ received ∷ acked 3 ∷ advance ∷ restart ∷ []

life-Fits : All (Fits (linked sabm).n_maxlen_tx) life
unfolding Fits
life-Fits = (refl, (tt, (tt, (tt, (tt, (tt, tt))))))

run_ops-InRange_example :
    (after : Sock) × ((run_ops life (linked sabm) ≡ some after) × InRange after)
run_ops-InRange_example = run_ops-InRange life (linked sabm) linked-InRange life-Fits

-- What a peer asks for: frames of 64 bytes and a window of 2.
abbrev asked : Params
asked = record {
  flags = 2 ^ 6 + 2 ^ 8;
  classes = 0;
  hdlc = 0;
  info_tx = 0;
  info_rx = 64 * 8;
  window_tx = 0;
  window_rx = 2;
  ack = 0;
  retry = 0;
}

abbrev blank : Frame
blank = record {
  dest = station 0;
  src = station 2;
  repeaters = [];
  hops = 0;
  control = 0;
  nr = 0;
  ns = 0;
  pf = 0;
  cr = command;
  kind = Kind.unknown;
  format = normal;
  version = v2_0;
  proto = 0;
  info = none;
  infolen = 0;
}

-- V(R) of 100 is sent whole and read as 36.
classify-control_i_extended_example :
    (control_i sabme 100 65 0 / 512 ≡ 100)
    × (classify blank (control_i sabme 100 65 0) extended ≡ ok (i_frame blank 36 1 0))
classify-control_i_extended_example = classify-control_i_extended blank 100 65 0 (omega arith)

same_poll : i_flag (flow_left (vs_incr (linked sabm))) ≡ i_flag (flow_left (linked sabm))
unfolding flow_left vs_incr
same_poll = refl

write_stream-resend_example :
    (saved : Sock) × ((tx_slot_save (linked sabm) (1 ∷ 2 ∷ []) ≡ some saved)
      × (write_stream (linked sabm) (1 ∷ 2 ∷ [])
          ≡ (resend (vs_incr saved) 2 >>= λ sent. ok (vs_incr saved, sent))))
write_stream-resend_example =
    write_stream-resend (linked sabm) (1 ∷ 2 ∷ []) refl linked-HasSlots (omega arith) refl same_poll

-- An I frame with one byte of information.
abbrev i_bytes : List ℕ
i_bytes = (station 4).callsign ++ (0xe4 ∷ ((station 2).callsign ++ (0x63 ∷ 0x00 ∷ 0xf0 ∷ 7 ∷ [])))

encodes : Control.encode (frame_of (linked sabm) command 0 0xf0 (7 ∷ [])) 200 ≡ ok i_bytes
unfolding Control.encode control_bytes in_buffer has_info append_info info_bytes
    Address.encode_address addr_copy flags_remote flags_local copy_all
encodes = refl

frame_send-encode_frame_example : frame_send (linked sabm) command 0 0xf0 (7 ∷ []) ≡ ok i_bytes
frame_send-encode_frame_example =
    frame_send-encode_frame (linked sabm) command 0 0xf0 7 [] i_bytes refl refl refl refl encodes

-- A run of three segments, the protocol byte first.
abbrev three : List (List ℕ)
three = (0xf0 ∷ 1 ∷ []) ∷ (2 ∷ 3 ∷ []) ∷ (4 ∷ []) ∷ []

assembler_read-joined_example :
    (assembler_init 3 none 3 >>= λ opened.
    accept_all 3 opened three >>= λ full. assembler_read full)
    ≡ ok (some (1 ∷ 2 ∷ 3 ∷ 4 ∷ []))
assembler_read-joined_example =
    assembler_read-joined 3 none 0xf0 (1 ∷ []) ((2 ∷ 3 ∷ []) ∷ (4 ∷ []) ∷ []) no_assembler
      (omega arith) (omega arith) (omega arith, (omega arith, (omega arith, tt)))
