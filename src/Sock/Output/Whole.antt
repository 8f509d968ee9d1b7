-- ===== src/Sock/Output/Whole.antt =====
-- The two encoders of a frame: frame_send of sock.c and patty_ax25_frame_encode of frame.c.
use patty.Prelude.{
  Bool, Bool-cases, List, ap, append_assoc, arith, false, get_or, if◌then◌else◌, inl, inr, leb,
  length, length-append, ltb, not, refl, some, suc, sym, take_all, true, ℕ, ◌++◌, ◌+◌, ◌==◌, ◌||◌,
  ◌∙◌, ◌∷◌, ◌≡◌, ◌≤◌,
}
use patty.Prelude.Bits.{and_0xff}
use patty.Result.{bind-eq-ok, eoverflow, guard-eq-ok, ok, ok-injective}
use patty.Frame.{Cr, Format, Frame, extended, is_control_i, is_control_u, is_control_ui, normal}
use patty.Frame.Kind
use patty.Frame.Address
use patty.Frame.Control
use patty.Frame.Control.{append_info, control_bytes, encode, has_info, in_buffer, info_bytes}
use patty.Sock.{Mode, Sock, dm, is_sabme, sabm, sabme}
use patty.Sock.Output.{encode_address, frame_send, overhead, sock_control_bytes, sock_info, toobig}

abbrev format_of : Mode → Format
format_of mode = if is_sabme mode then extended else normal

-- The frame that a socket means to send.
abbrev pub frame_of : Sock → Cr → ℕ → ℕ → List ℕ → Frame
frame_of sock cr control proto info = record {
  dest = sock.remote;
  src = sock.local;
  repeaters = sock.repeaters;
  hops = sock.hops;
  control = control;
  nr = 0;
  ns = 0;
  pf = 0;
  cr = cr;
  kind = Kind.unknown;
  format = format_of sock.mode;
  version = sock.version;
  proto = proto;
  info = some info;
  infolen = length info;
}

bytes_agree :
    (mode : Mode) (control : ℕ)
    → control_bytes (format_of mode) control ≡ sock_control_bytes mode control
unfolding control_bytes sock_control_bytes
bytes_agree dm control = rw (and_0xff control) refl
bytes_agree sabm control = rw (and_0xff control) refl
bytes_agree sabme control = elim (Bool-cases (is_control_u control)) [
  | inl e ↦ rw e refl
  | inr e ↦ rw e refl
]

-- What frame_encode appends behind the control field, where it has written a frame.
appended :
    (field info : List ℕ) (len proto : ℕ) (with_proto : Bool) (bytes : List ℕ)
    → append_info field len with_proto proto (some info) (length info) ≡ ok bytes
    → (bytes ≡ field ++ (if with_proto then proto ∷ info else info)) × (length bytes ≤ len)
unfolding append_info info_bytes
appended field info len proto with_proto bytes h =
    let fits : leb (0 + length info) (length info) ≡ true = ground arith in
    let (room, rest) = guard-eq-ok _ eoverflow _ h in
    let same : field ++ (if with_proto then proto ∷ info else info) ≡ bytes =
      ok-injective (rw (fits, take_all info) at rest) in
    (sym same, bounded with_proto same room)
  where
    bounded :
        (b : Bool)
        → field ++ (if b then proto ∷ info else info) ≡ bytes
        → not (ltb len (1 + length field + length info)) ≡ true
        → length bytes ≤ len
    bounded true same room =
        ground (arith, ap length same, length-append field (proto ∷ info), room)
    bounded false same room = ground (arith, ap length same, length-append field info, room)

in_buffer-eq-ok :
    (field : List ℕ) (len : ℕ) (bytes : List ℕ) → in_buffer field len ≡ ok bytes → field ≡ bytes
unfolding in_buffer
in_buffer-eq-ok field len bytes h = elim (Bool-cases (leb (length field) len)) [
  | inl e ↦ ok-injective (rw e at h)
  | inr e ↦ let h' = rw e at h in cc
]

or-false : (b : Bool) → (b || false) ≡ b
or-false true = refl
or-false false = refl

longer :
    (field info : List ℕ) (proto : ℕ) (b : Bool)
    → length info ≤ length (field ++ (if b then proto ∷ info else info))
longer field info proto true = omega (arith, length-append field (proto ∷ info))
longer field info proto false = omega (arith, length-append field info)

-- From the address and the field that frame_encode has written to what frame_send writes.
sent_whole :
    (sock : Sock) (cr : Cr) (control proto b : ℕ) (bs address field bytes : List ℕ)
    → sock.has_iface ≡ true
    → (get_or sock.remote.callsign 0 0 == 0) ≡ false
    → length sock.tx_buf ≡ overhead + sock.n_maxlen_tx
    → is_control_ui control ≡ false
    → encode_address sock cr (overhead + sock.n_maxlen_tx) ≡ ok address
    → address ++ control_bytes (format_of sock.mode) control ≡ field
    → (if has_info (some (b ∷ bs)) (suc (length bs))
        then append_info field
            (overhead + sock.n_maxlen_tx)
            (is_control_i control || is_control_ui control)
            proto
            (some (b ∷ bs))
            (suc (length bs))
        else ok field)
      ≡ ok bytes
    → frame_send sock cr control proto (b ∷ bs) ≡ ok bytes
unfolding has_info frame_send sock_info in_buffer
sent_whole sock cr control proto b bs address field bytes iface peer buffer not_ui addressed placed
      h =
    let info : List ℕ = b ∷ bs in
    let with_proto = is_control_i control in
    let tail = if with_proto then proto ∷ info else info in
    let some_info : (suc (length bs) == 0) ≡ false = ground arith in
    let plain = rw (some_info, not_ui, or-false with_proto) at h in
    let (whole, room) =
      appended field info (overhead + sock.n_maxlen_tx) proto with_proto bytes plain in
    let small : toobig sock (suc (length bs)) ≡ false =
      ground (arith, longer field info proto with_proto, ap length whole, room) in
    let sent : address ++ (sock_control_bytes sock.mode control ++ tail) ≡ bytes =
      ap (λ c. address ++ (c ++ tail)) (sym (bytes_agree sock.mode control))
      ∙ sym (append_assoc address (control_bytes (format_of sock.mode) control) tail)
      ∙ ap (λ f. f ++ tail) placed
      ∙ sym whole in
    let fits : leb (length bytes) (length sock.tx_buf) ≡ true = ground (arith, room, buffer) in
    rw (iface, peer, small, addressed, sent, fits) refl

-- Where a socket has an interface and a peer and its transmit buffer has its usual size, every
-- frame with information that patty_ax25_frame_encode would write into that buffer is what
-- frame_send of the socket writes and sends, but for UI frames.
pub frame_send-encode_frame :
    (sock : Sock) (cr : Cr) (control proto b : ℕ) (bs bytes : List ℕ)
    → sock.has_iface ≡ true
    → (get_or sock.remote.callsign 0 0 == 0) ≡ false
    → length sock.tx_buf ≡ overhead + sock.n_maxlen_tx
    → is_control_ui control ≡ false
    → Control.encode (frame_of sock cr control proto (b ∷ bs)) (overhead + sock.n_maxlen_tx)
      ≡ ok bytes
    → frame_send sock cr control proto (b ∷ bs) ≡ ok bytes
unfolding Control.encode encode_address Address.encode_address
frame_send-encode_frame sock cr control proto b bs bytes iface peer buffer not_ui h =
    let len = overhead + sock.n_maxlen_tx in
    let frame = frame_of sock cr control proto (b ∷ bs) in
    let (address, addressed, rest) = bind-eq-ok (Address.encode_address frame false len) _ h in
    let (field, placed, rest') = bind-eq-ok _ _ rest in
    sent_whole sock cr control proto b bs address field bytes iface peer buffer not_ui addressed
      (in_buffer-eq-ok _ len field placed) rest'
