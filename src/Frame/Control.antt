-- ===== src/Frame/Control.antt =====
-- The control field of a frame: decode_nr, decode_ns, decode_pf and patty_ax25_frame_decode_control
-- of frame.c, and patty_ax25_frame_encode.
pub mod Fields
pub mod Bounds
use patty.Prelude.{
  Bool, List, Option, [], bit_and, bit_or, drop, false, if◌then◌else◌, leb, length, ltb, none, not,
  some, true, ℕ, ◌%◌, ◌*◌, ◌++◌, ◌+◌, ◌/◌, ◌==◌, ◌^◌, ◌||◌, ◌∷◌,
}
use patty.Result.{Result, eio, eoverflow, err, fault, guard, ok, read, read_bytes, ◌>>=◌, ◌>>◌}
use patty.Frame.{
  Format, Frame, extended, is_control_i, is_control_s, is_control_u, is_control_ui, normal,
  sub_size,
}
use patty.Frame.Kind
use patty.Frame.Address.{encode_address}

pub decode_nr : ℕ → Format → ℕ
decode_nr control normal = bit_and control 0x00e0 / 2 ^ 5
decode_nr control extended = bit_and control 0x7e00 / 2 ^ 9

pub decode_ns : ℕ → Format → ℕ
decode_ns control normal = bit_and control 0x000e / 2 ^ 1
decode_ns control extended = bit_and control 0x007e / 2 ^ 1

pub decode_pf : ℕ → Format → ℕ
decode_pf control normal = bit_and control 0x0010 / 2 ^ 4
decode_pf control extended = bit_and control 0x0100 / 2 ^ 8

-- The first switch: the control field, and the offset behind it.
pub read_control : Format → List ℕ → ℕ → Result (ℕ × ℕ)
read_control normal buf offset = read buf offset >>= λ b. ok (b, offset + 1)
read_control extended buf offset = read buf offset >>= λ b.
    if is_control_u b
    then ok (b, offset + 1)
    else read buf (offset + 1) >>= λ c. ok (bit_or b (c * 2 ^ 8), offset + 2)

abbrev pub is_s_kind : ℕ → Bool
is_s_kind c = c == Kind.rr || c == Kind.rnr || c == Kind.rej || c == Kind.srej

abbrev pub is_u_kind : ℕ → Bool
is_u_kind c =
    c == Kind.sabme
    || c == Kind.sabm
    || c == Kind.disc
    || c == Kind.dm
    || c == Kind.ua
    || c == Kind.frmr
    || c == Kind.ui
    || c == Kind.xid
    || c == Kind.test

-- The fields that the control field stands for. `frame` has them cleared.
pub classify : Frame → ℕ → Format → Result Frame
unfolding decode_nr decode_ns decode_pf
classify frame control format =
    if is_control_i control
    then ok (record frame {
      kind = Kind.i;
      nr = decode_nr control format;
      ns = decode_ns control format;
      pf = decode_pf control format;
    })
    else if is_control_s control
    then ok (
        let c = bit_and control 0x0f in
        if is_s_kind c
        then record frame { kind = c; nr = decode_nr control format; pf = decode_pf control format }
        else frame)
    else if is_control_u control
    then ok (
        let c = bit_and control 0xef in
        if is_u_kind c then record frame { kind = c; pf = decode_pf control normal } else frame)
    else err eio

-- The last switch: the protocol byte of I and UI frames, and the information of those and of TEST.
-- The length is a size_t.
pub attach_info : Frame → List ℕ → ℕ → ℕ → Result (Frame × ℕ)
attach_info frame buf offset len =
    if frame.kind == Kind.i || frame.kind == Kind.ui
    then (read buf offset >>= λ proto. ok (
      record frame {
        proto = proto;
        info = some (drop (offset + 1) buf);
        infolen = sub_size len (offset + 1);
      },
      len,
    ))
    else if frame.kind == Kind.test
    then ok (record frame { info = some (drop offset buf); infolen = sub_size len offset }, len)
    else ok (frame, offset)

-- patty_ax25_frame_decode_control: the frame, and the offset behind what was decoded (the code
-- returns its distance from `offset`). The frame has `len` bytes; `buf` is the array that it
-- stands in.
pub decode_control : Frame → Format → List ℕ → ℕ → ℕ → Result (Frame × ℕ)
unfolding read_control classify attach_info
decode_control frame format buf offset len = do
  (control, next) ← read_control format buf offset
  classified ←
      classify
        (record frame {
          control = control;
          nr = 0;
          ns = 0;
          pf = 0;
          kind = Kind.unknown;
          proto = 0;
          info = none;
          infolen = 0;
          format = format;
        })
        control format
  attach_info classified buf next len

-- The control bytes, as patty_ax25_frame_encode and patty_ax25_frame_encode_reply_to write them.
unfoldable pub control_bytes : Format → ℕ → List ℕ
control_bytes normal control = (control % 256) ∷ []
control_bytes extended control =
    if is_control_u control
    then bit_and control 0x00ff ∷ []
    else bit_and control 0x00ff ∷ (bit_and control 0xff00 / 2 ^ 8) ∷ []

-- What has been written up to the end of the control field. No test guards these bytes.
unfoldable pub in_buffer : List ℕ → ℕ → Result (List ℕ)
in_buffer field len = if leb (length field) len then ok field else fault

unfoldable pub has_info : Option (List ℕ) → ℕ → Bool
has_info none infolen = false
has_info (some info) infolen = not (infolen == 0)

-- The information of `infolen` bytes.
unfoldable pub info_bytes : Option (List ℕ) → ℕ → Result (List ℕ)
info_bytes none infolen = if infolen == 0 then ok [] else fault
info_bytes (some info) infolen = read_bytes info 0 infolen

-- The room test, the protocol byte where the frame has one, and the copy of the information.
unfoldable pub append_info : List ℕ → ℕ → Bool → ℕ → Option (List ℕ) → ℕ → Result (List ℕ)
unfolding info_bytes
append_info field len with_proto proto info infolen = do
  guard (not (ltb len (1 + length field + infolen))) eoverflow
  bytes ← info_bytes info infolen
  ok (field ++ (if with_proto then proto ∷ bytes else bytes))

-- patty_ax25_frame_encode: the bytes written at the start of a buffer of `len` bytes.
unfoldable pub encode : Frame → ℕ → Result (List ℕ)
unfolding control_bytes in_buffer has_info append_info
encode frame len = do
  address ← encode_address frame false len
  field ← in_buffer (address ++ control_bytes frame.format frame.control) len
  let with_proto = is_control_i frame.control || is_control_ui frame.control
  if has_info frame.info frame.infolen
      then append_info field len with_proto frame.proto frame.info frame.infolen
      else ok field

-- The rest of patty_ax25_frame_encode_reply_to behind the address.
reply_rest : Frame → ℕ → List ℕ → Result (List ℕ)
unfolding control_bytes in_buffer append_info
reply_rest reply len address = do
  field ← in_buffer (address ++ control_bytes reply.format reply.control) len
  if is_control_i reply.control || is_control_ui reply.control
      then append_info field len true reply.proto reply.info reply.infolen
      else ok field

-- patty_ax25_frame_encode_reply_to: `reply` along the way that `frame` came. The return value of
-- encode_address goes into a size_t unread, so that a failure there makes the next write land
-- before the buffer.
pub encode_reply_to : Frame → Frame → ℕ → Result (List ℕ)
unfolding reply_rest
encode_reply_to frame reply len = elim (encode_address frame true len) [
  | ok address ↦ reply_rest reply len address
  | err e ↦ fault
  | fault ↦ fault
]
