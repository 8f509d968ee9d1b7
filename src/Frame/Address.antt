-- ===== src/Frame/Address.antt =====
-- The address field of a frame: decode_station, decode_hops, patty_ax25_frame_decode_address and
-- encode_address of frame.c, and patty_ax25_addr_copy of ax25.c.
pub mod RoundTrip
mod Tests
use patty.Prelude.{
  Bool, List, [], bit_and, bit_or, false, if◌then◌else◌, length, ltb, not, reverse, suc, take, true,
  zero, ℕ, ◌&&◌, ◌*◌, ◌++◌, ◌+◌, ◌/◌, ◌==◌, ◌||◌, ◌∷◌,
}
use patty.Result.{Result, eio, eoverflow, err, guard, ok, read, read_bytes, ◌>>=◌, ◌>>◌}
use patty.Frame.{
  Addr, Cr, Frame, Version, addr_size, callstrlen, command, is_char_valid, is_octet_last, max_hops,
  response, ssid_c, v2_0,
}

-- The loop over the callsign bytes; `space` is set from the first padding on.
pub check_callsign : List ℕ → Bool → Result (Unit {0})
check_callsign [] space = ok tt
check_callsign (b ∷ bs) space =
    let c = b / 2 in
    let rest = check_callsign bs (space || c == 0x20) in
    if not (is_char_valid c) || is_octet_last b
    then err eio
    else if not (c == 0x20) && space
    then err eio
    else rest

-- `decode_station`: the address at `offset`. The return value is always its size.
pub decode_station : List ℕ → ℕ → ℕ → Result Addr
unfolding check_callsign
decode_station buf offset len = do
  guard (not (ltb len (offset + addr_size))) eio
  callsign ← read_bytes buf offset callstrlen
  check_callsign callsign false
  ssid ← read buf (offset + callstrlen)
  ok (record { callsign = callsign; ssid = ssid })

-- The `break` of the loop at the last address, or its next rounds.
pub next_hop : Bool → Addr → ℕ → Result (List Addr × ℕ) → Result (List Addr × ℕ)
next_hop true addr offset rest = ok (addr ∷ [], offset)
next_hop false addr offset rest = rest >>= λ r. ok (addr ∷ r.0, r.1)

-- The loop of `decode_hops` with `rounds` hops to go: the repeaters, and where it stopped. A last
-- address without the extension bit is refused.
pub decode_hops : ℕ → List ℕ → ℕ → ℕ → Result (List Addr × ℕ)
unfolding next_hop
decode_hops zero buf offset len = err eio
decode_hops (suc rounds) buf offset len =
    let rest = decode_hops rounds buf (offset + addr_size) len in
    decode_station buf offset len >>= λ addr.
    next_hop (is_octet_last addr.ssid) addr (offset + addr_size) rest

-- The command bits of the two SSIDs.
abbrev pub cr_of : ℕ → ℕ → Cr
cr_of dest src =
    if ssid_c dest
    then if ssid_c src then Cr.old else command
    else if ssid_c src
    then response
    else Cr.old

abbrev pub version_of : ℕ → ℕ → Version
version_of dest src =
    if ssid_c dest
    then if ssid_c src then Version.old else v2_0
    else if ssid_c src
    then v2_0
    else Version.old

-- patty_ax25_frame_decode_address: the frame, and the number of bytes decoded.
pub decode_address : Frame → List ℕ → ℕ → Result (Frame × ℕ)
unfolding decode_station decode_hops
decode_address frame buf len = do
  dest ← decode_station buf 0 len
  src ← decode_station buf addr_size len
  let addressed = record frame {
    dest = dest;
    src = src;
    cr = cr_of dest.ssid src.ssid;
    version = version_of dest.ssid src.ssid;
    repeaters = [];
    hops = 0;
  }
  hops ←
      if is_octet_last src.ssid
      then ok ([], 2 * addr_size)
      else decode_hops max_hops buf (2 * addr_size) len
  ok (record addressed { repeaters = hops.0; hops = length hops.0 }, hops.1)

-- patty_ax25_addr_copy: the seven bytes that it writes.
unfoldable pub addr_copy : Addr → ℕ → List ℕ
addr_copy addr ssid_flags =
    addr.callsign ++ (bit_or (bit_or ssid_flags 0x60) (bit_and addr.ssid 0x1e) ∷ [])

-- `buf[offset-1] |= 1`
abbrev pub mark_last : List ℕ → List ℕ
mark_last [] = []
mark_last (b ∷ []) = bit_or b 1 ∷ []
mark_last (b ∷ c ∷ bs) = b ∷ mark_last (c ∷ bs)

unfoldable pub flags_remote : Cr → ℕ
flags_remote command = 0x80
flags_remote _ = 0x00

unfoldable pub flags_local : Cr → ℕ
flags_local response = 0x80
flags_local _ = 0x00

unfoldable pub copy_all : List Addr → List ℕ
unfolding addr_copy
copy_all [] = []
copy_all (a ∷ rest) = addr_copy a 0 ++ copy_all rest

-- `encode_address`: the bytes that it writes at the start of a buffer of `len` bytes. A reply goes
-- back the way that the frame came.
unfoldable pub encode_address : Frame → Bool → ℕ → Result (List ℕ)
unfolding addr_copy flags_remote flags_local copy_all
encode_address frame reply len = do
  guard (not (ltb len ((2 + frame.hops) * addr_size))) eoverflow
  ok (
      mark_last (
        if reply
        then addr_copy frame.src (flags_local frame.cr)
          ++ (addr_copy frame.dest (flags_remote frame.cr)
              ++ copy_all (reverse (take frame.hops frame.repeaters)))
        else addr_copy frame.dest (flags_remote frame.cr)
          ++ (addr_copy frame.src (flags_local frame.cr)
              ++ copy_all (take frame.hops frame.repeaters))))
