-- ===== src/Aprs.antt =====
-- The APRS-IS interface: the line reader of aprs_is.c, which turns the text of a packet into a frame.
mod Encoded
mod Sound
mod Rounds
pub mod Bounds
pub mod Rest
mod Tests
use patty.Prelude.{
  Bool, List, Option, [], drop, false, get_or, if◌then◌else◌, length, ltb, none, not, replicate,
  some, suc, true, zero, ℕ, ◌++◌, ◌+◌, ◌-◌, ◌==◌, ◌^◌, ◌||◌, ◌∷◌,
}
use patty.Result.{Errno, Result, err, fault, ok, read, stale}
use patty.Frame.{Addr, Cr, Frame, Version, command, is_char_valid, max_hops, normal}
use patty.Frame.Kind
use patty.Frame.Control.{encode}
use patty.Callsign.{addrstrlen, pton}

-- PATTY_AX25_APRS_IS_PACKET_MAX and PATTY_AX25_APRS_IS_PAYLOAD_MAX
abbrev pub packet_max : ℕ
packet_max = 512

abbrev pub payload_max : ℕ
payload_max = 256

-- PATTY_AX25_PROTO_NONE
abbrev pub proto_none : ℕ
proto_none = 0xf0

-- `enum state`
pub data State : Type 0 where
  in_header in_comment in_body complete : State

-- `struct _patty_ax25_aprs_is`, with the bytes of `call` and `body` that have been stored, so that
-- their lengths are offset_call and offset_body. `encoded` is `none` for -1, and `packet` what was
-- written to the buffer of the caller. `readlen` is the size_t that it is compared as.
pub record Aprs : Type 0 where
  pub rx_buf : List ℕ
  pub call : List ℕ
  pub body : List ℕ
  pub frame : Frame
  pub state : State
  pub offset_i : ℕ
  pub readlen : ℕ
  pub encoded : Option ℕ
  pub dropped : ℕ
  pub packet : List ℕ

abbrev pub zero_addr : Addr
zero_addr = record { callsign = replicate 6 0; ssid = 0 }

-- A frame of zeros.
abbrev pub zero_frame : Frame
zero_frame = record {
  dest = zero_addr;
  src = zero_addr;
  repeaters = [];
  hops = 0;
  control = 0;
  nr = 0;
  ns = 0;
  pf = 0;
  cr = Cr.old;
  kind = 0;
  format = normal;
  version = Version.old;
  proto = 0;
  info = none;
  infolen = 0;
}

-- What a round of the loop comes to: the next round, a label, or an access outside an array.
pub data Turn : Type 0 where
  next done drop_line outside : Turn
  error : Errno → Turn

-- A byte is stored behind those that an array of `size` bytes holds.
abbrev pub byte_stored : ℕ → List ℕ → ℕ → Option (List ℕ)
byte_stored size bytes c = if ltb (length bytes) size then some (bytes ++ (c ∷ [])) else none

-- The address that a separator ends.
pub data Target : Type 0 where
  to_src to_dest to_repeater : Target

abbrev pub put_addr : Target → Frame → Addr → Frame
put_addr to_src frame addr = record frame { src = addr }
put_addr to_dest frame addr = record frame { dest = addr }
put_addr to_repeater frame addr = record frame {
  repeaters = frame.repeaters ++ (addr ∷ []);
  hops = frame.hops + 1;
}

abbrev pub addr_read : Target → Aprs → Result Addr → Turn × Aprs
addr_read target a (ok addr) = (next, record a { frame = put_addr target a.frame addr; call = [] })
addr_read target a (err e) = (drop_line, a)
addr_read target a fault = (outside, a)

-- `if (addr) ...`: the NUL behind the call, and pton. Where pton fails, the packet is dropped.
unfoldable pub end_addr : Target → Aprs → Turn × Aprs
end_addr target a =
    if ltb (length a.call) (addrstrlen + 1) then addr_read target a (pton a.call) else (outside, a)

abbrev pub to_body : Bool → Aprs → Aprs
to_body ends a = if ends then record a { state = in_body } else a

abbrev pub call_stored : Aprs → Option (List ℕ) → Turn × Aprs
call_stored a none = (outside, a)
call_stored a (some call) = (next, record a { call = call })

-- A round in state APRS_IS_HEADER.
unfoldable pub header_char : Aprs → ℕ → Turn × Aprs
unfolding end_addr
header_char a c =
    if c == b'#'
    then (next, record a { state = in_comment })
    else if c == b'>'
    then end_addr to_src a
    else if c == b',' || c == b':'
    then (if not (get_or a.frame.dest.callsign 0 0 == 0)
        then (if a.frame.hops == max_hops
            then (drop_line, a)
            else end_addr to_repeater (to_body (c == b':') a))
        else end_addr to_dest (to_body (c == b':') a))
    else if is_char_valid c
    then (if length a.call == addrstrlen
        then (drop_line, a)
        else call_stored a (byte_stored (addrstrlen + 1) a.call c))
    else (drop_line, a)

-- The frame of a packet.
abbrev pub ui_frame : Aprs → Frame
ui_frame a = record a.frame {
  control = Kind.ui;
  cr = command;
  proto = proto_none;
  info = some a.body;
  infolen = length a.body;
}

abbrev pub frame_encoded : Aprs → Result (List ℕ) → Turn × Aprs
frame_encoded a (ok packet) = (done, record a { encoded = some (length packet); packet = packet })
frame_encoded a (err e) = (error e, record a { encoded = none })
frame_encoded a fault = (outside, a)

abbrev pub body_stored : Aprs → Option (List ℕ) → Turn × Aprs
body_stored a none = (outside, a)
body_stored a (some body) = (next, record a { body = body })

-- A round in state APRS_IS_BODY, where the caller's buffer has `len` bytes.
unfoldable pub body_char : ℕ → Aprs → ℕ → Turn × Aprs
body_char len a c =
    if c == b'\r'
    then (next, a)
    else if c == b'\n'
    then frame_encoded (record a { state = complete; frame = ui_frame a }) (encode (ui_frame a) len)
    else if length a.body == payload_max
    then (drop_line, a)
    else body_stored a (byte_stored payload_max a.body c)

-- The `switch`, behind `offset_i++`.
unfoldable pub round : ℕ → State → Aprs → ℕ → Turn × Aprs
unfolding header_char body_char
round len in_header a c = header_char a c
round len in_comment a c =
    if c == b'\r'
    then (next, a)
    else if c == b'\n'
    then (done, record a { state = in_header })
    else (next, a)
round len in_body a c = body_char len a c
round len complete a c = (done, a)

abbrev pub next_round : Turn × Aprs → (Aprs → Turn × Aprs) → Turn × Aprs
next_round (next, a) f = f a
next_round (turn, a) f = (turn, a)

abbrev pub read_char : ℕ → Aprs → Result ℕ → Turn × Aprs
read_char len a (ok c) = round len a.state (record a { offset_i = a.offset_i + 1 }) c
read_char len a (err e) = (outside, a)
read_char len a fault = (outside, a)

-- The loop, with the characters that are left as its rounds.
unfoldable pub drain_loop : ℕ → ℕ → Aprs → Turn × Aprs
unfolding round
drain_loop len zero a = (done, a)
drain_loop len (suc rounds) a =
    next_round (read_char len a (read a.rx_buf a.offset_i)) (drain_loop len rounds)

-- patty_ax25_aprs_is_flush: what it returns, and the reader.
unfoldable pub flush : Aprs → Option ℕ × Aprs
flush a = (
  a.encoded,
  record a {
    state = in_header;
    offset_i = a.readlen;
    call = [];
    body = [];
    encoded = some 0;
    frame = zero_frame;
  },
)

-- The labels behind the loop, where it began at `start`.
unfoldable pub drain_end : ℕ → Turn × Aprs → Result ℕ × Aprs
unfolding flush
drain_end start (next, a) = (ok (a.offset_i - start), a)
drain_end start (done, a) = (ok (a.offset_i - start), a)
drain_end start (drop_line, a) =
    let b = (flush (record a { dropped = a.dropped + 1 })).1 in (ok (b.offset_i - start), b)
drain_end start (error e, a) = (err e, a)
drain_end start (outside, a) = (fault, a)

-- patty_ax25_aprs_is_drain
unfoldable pub drain : Aprs → ℕ → Result ℕ × Aprs
unfolding drain_loop drain_end
drain a len = drain_end a.offset_i (drain_loop len (a.readlen - a.offset_i) a)

-- patty_ax25_aprs_is_fill, where `read` has got these bytes, or has failed: then `readlen` is -1.
unfoldable pub fill : Aprs → Option (List ℕ) → Result ℕ × Aprs
fill a none = (err stale, record a { readlen = 2 ^ 64 - 1 })
fill a (some bytes) = (
  ok (length bytes),
  record a { rx_buf = bytes ++ drop (length bytes) a.rx_buf; readlen = length bytes; offset_i = 0 },
)

abbrev is_complete : State → Bool
is_complete complete = true
is_complete _ = false

-- patty_ax25_aprs_is_pending
pub pending : Aprs → Bool
pending a = is_complete a.state

-- patty_ax25_aprs_is_new, connected.
abbrev pub fresh : Aprs
fresh = record {
  rx_buf = replicate packet_max 0;
  call = [];
  body = [];
  frame = zero_frame;
  state = in_header;
  offset_i = 0;
  readlen = 0;
  encoded = some 0;
  dropped = 0;
  packet = [];
}
