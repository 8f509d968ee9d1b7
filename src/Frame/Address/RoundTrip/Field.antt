-- ===== src/Frame/Address/RoundTrip/Field.antt =====
-- A whole address field of frame.c: its command bits, its bytes, and what is read of it.
use patty.Prelude.{
  All, List, [], ap, append-nil, ap₂, arith, false, if◌then◌else◌, length, length-append, refl, sym,
  take, take_all, ℕ, ◌*◌, ◌++◌, ◌<◌, ◌==◌, ◌∙◌, ◌∷◌, ◌≡◌, ◌≤◌,
}
use patty.Result.{eoverflow, guard-eq-ok, ok, ok-injective}
use patty.Frame.{Addr, Cr, Frame, addr_size, command, max_hops, response, ssid_number}
use patty.Frame.Address.{
  addr_copy, copy_all, cr_of, decode_address, decode_hops, decode_station, encode_address,
  flags_local, flags_remote, mark_last, version_of,
}
use patty.Frame.Address.RoundTrip.Station.{
  HasCallsign, IsCallsign, addr_copy-bytes_of, bytes_all, bytes_of, copy_all_pos,
  decode_station_bytes, length-bytes_of, mark_last-append, mark_last-bytes_of, mark_last-copy_all,
  on_wire, wire_c, wire_hops, wire_last, wire_number, wire_ssid,
}

pub remote_bit : Cr → ℕ
remote_bit command = 1
remote_bit _ = 0

pub local_bit : Cr → ℕ
local_bit response = 1
local_bit _ = 0

-- The bytes of an encoded address field; `last` marks the source if there is no repeater.
abbrev pub wire_dest : Frame → Addr
wire_dest f = on_wire (remote_bit f.cr) 0 f.dest

abbrev pub wire_src : Frame → ℕ → Addr
wire_src f last = on_wire (local_bit f.cr) last f.src

remote_bit-lt : (c : Cr) → remote_bit c < 2
unfolding remote_bit
remote_bit-lt c = ground arith

local_bit-lt : (c : Cr) → local_bit c < 2
unfolding local_bit
local_bit-lt c = ground arith

flags_bits : (c : Cr) → (flags_remote c ≡ remote_bit c * 128) × (flags_local c ≡ local_bit c * 128)
unfolding flags_remote flags_local remote_bit local_bit
flags_bits c = ground arith

-- The command bits come back as the kind of the frame.
cr_of_wire :
    (c : Cr) (d s last : ℕ)
    → last < 2
    → cr_of (wire_ssid (remote_bit c * 128) d 0) (wire_ssid (local_bit c * 128) s last) ≡ c
unfolding remote_bit local_bit
cr_of_wire Cr.old d s last h = ground (arith, wire_c 0 d 0, wire_c 0 s last)
cr_of_wire command d s last h = ground (arith, wire_c 1 d 0, wire_c 0 s last)
cr_of_wire response d s last h = ground (arith, wire_c 0 d 0, wire_c 1 s last)

-- The wire form of a whole address field.
pub encode_address_direct :
    (f : Frame) (len : ℕ) {bytes : List ℕ}
    → f.hops ≡ length f.repeaters
    → encode_address f false len ≡ ok bytes
    → mark_last (bytes_of (wire_dest f) ++ (bytes_of (wire_src f 0) ++ copy_all f.repeaters))
      ≡ bytes
unfolding encode_address
encode_address_direct f len h e =
    let (_, body) = guard-eq-ok _ eoverflow _ e in
    let whole : take f.hops f.repeaters ≡ f.repeaters = rw h (take_all f.repeaters) in
    let flags = flags_bits f.cr in
    sym (
      ap mark_last (
        ap₂ ◌++◌ (copied f.dest flags.0 (remote_bit-lt f.cr))
          (ap₂ ◌++◌ (copied f.src flags.1 (local_bit-lt f.cr)) (ap copy_all whole))))
    ∙ ok-injective body
  where
    copied :
        (a : Addr) {flags bit : ℕ}
        → flags ≡ bit * 128
        → bit < 2
        → addr_copy a flags ≡ bytes_of (on_wire bit 0 a)
    copied a {bit = bit} e h = rw e (addr_copy-bytes_of bit a h)

-- The same station: the callsign and the SSID number, whatever the other bits of the SSID byte.
pub record SameStation (a b : Addr) : Type 0 where
  pub callsign : a.callsign ≡ b.callsign
  pub number : ssid_number a.ssid ≡ ssid_number b.ssid

abbrev pub SameStations : List Addr → List Addr → Type 0
SameStations [] [] = Unit
SameStations [] (b ∷ bs) = ⊥
SameStations (a ∷ rest) [] = ⊥
SameStations (a ∷ rest) (b ∷ bs) = SameStation a b × SameStations rest bs

on_wire-SameStation : (flags last : ℕ) (a : Addr) → last < 2 → SameStation (on_wire flags last a) a
on_wire-SameStation flags last a h = record {
  callsign = refl;
  number = wire_number flags a.ssid last h;
}

pub wire_hops-SameStations : (hops : List Addr) → SameStations (wire_hops hops) hops
wire_hops-SameStations [] = tt
wire_hops-SameStations (a ∷ []) = (on_wire-SameStation 0 1 a (omega arith), tt)
wire_hops-SameStations (a ∷ b ∷ hops) =
    (on_wire-SameStation 0 0 a (omega arith), wire_hops-SameStations (b ∷ hops))

-- What a frame of the stations of `f` is read back as.
pub record ReadBack (f h : Frame) : Type 0 where
  pub dest : SameStation h.dest f.dest
  pub src : SameStation h.src f.src
  pub repeaters : SameStations h.repeaters f.repeaters
  pub hops : h.hops ≡ f.hops
  pub cr : h.cr ≡ f.cr

-- Destination and source from the start of a field, up to the choice at the extension bit.
pub decode_address_wire :
    (f g : Frame) (last : ℕ) (tail : List ℕ) (len n : ℕ) (hops : List Addr)
    → last < 2
    → IsCallsign f.dest.callsign
    → IsCallsign f.src.callsign
    → 2 * addr_size ≤ len
    → (if last == 1
        then ok ([], 2 * addr_size)
        else decode_hops max_hops
            (bytes_of (wire_dest f) ++ (bytes_of (wire_src f last) ++ tail))
            (2 * addr_size)
            len)
      ≡ ok (hops, n)
    → SameStations hops f.repeaters
    → length hops ≡ f.hops
    → (h : Frame) × (decode_address g
          (bytes_of (wire_dest f) ++ (bytes_of (wire_src f last) ++ tail))
          len
        ≡ ok (h, n))
      × ReadBack f h
unfolding decode_address
decode_address_wire f g last tail len n hops hl cd cs fits rest same count =
    let seven = length-bytes_of (wire_dest f) cd in
    let dest_at =
      decode_station_bytes [] (bytes_of (wire_src f last) ++ tail) (wire_dest f) len cd
        (omega arith) in
    let src_at =
      decode_station_bytes (bytes_of (wire_dest f)) tail (wire_src f last) len cs
        (omega (arith, seven)) in
    let src_at' : decode_station (bytes_of (wire_dest f) ++ (bytes_of (wire_src f last) ++ tail))
          addr_size len
        ≡ ok (wire_src f last) =
      rw seven at src_at in
    (
      record g {
        dest = wire_dest f;
        src = wire_src f last;
        cr = cr_of (wire_dest f).ssid (wire_src f last).ssid;
        version = version_of (wire_dest f).ssid (wire_src f last).ssid;
        repeaters = hops;
        hops = length hops;
      },
      rw dest_at (rw src_at' (rw (wire_last (local_bit f.cr) f.src.ssid last hl) (rw rest))),
      record {
        dest = on_wire-SameStation (remote_bit f.cr) 0 f.dest (omega arith);
        src = on_wire-SameStation (local_bit f.cr) last f.src hl;
        repeaters = same;
        hops = count;
        cr = cr_of_wire f.cr f.dest.ssid f.src.ssid last hl;
      },
    )

-- The bytes of the field, by the number of repeaters.
pub field_direct :
    (f : Frame)
    → mark_last (bytes_of (wire_dest f) ++ (bytes_of (wire_src f 0) ++ copy_all []))
      ≡ bytes_of (wire_dest f) ++ bytes_of (wire_src f 1)
unfolding copy_all
field_direct f = rw (append-nil (bytes_of (wire_src f 0))) (
    mark_last-append (bytes_of (wire_dest f)) (bytes_of (wire_src f 0))
      (omega (arith, length-append f.src.callsign ((wire_src f 0).ssid ∷ [])))
    ∙ ap (λ l. bytes_of (wire_dest f) ++ l) (mark_last-bytes_of (local_bit f.cr) f.src))

pub field_repeated :
    (f : Frame) (a : Addr) (hops : List Addr)
    → mark_last (bytes_of (wire_dest f) ++ (bytes_of (wire_src f 0) ++ copy_all (a ∷ hops)))
      ≡ bytes_of (wire_dest f) ++ (bytes_of (wire_src f 0) ++ bytes_all (wire_hops (a ∷ hops)))
field_repeated f a hops =
    let some_hop = copy_all_pos a hops in
    mark_last-append (bytes_of (wire_dest f)) (bytes_of (wire_src f 0) ++ copy_all (a ∷ hops))
      (omega (arith, length-append (bytes_of (wire_src f 0)) (copy_all (a ∷ hops))))
    ∙ ap (λ l. bytes_of (wire_dest f) ++ l)
        (mark_last-append (bytes_of (wire_src f 0)) (copy_all (a ∷ hops)) some_hop
          ∙ ap (λ l. bytes_of (wire_src f 0) ++ l) (mark_last-copy_all a hops))

pub length-bytes_all :
    (hops : List Addr)
    → All HasCallsign hops
    → length (bytes_all (wire_hops hops)) ≡ addr_size * length hops
length-bytes_all [] h = refl
length-bytes_all (a ∷ []) (h, hs) =
    omega (arith, length-append (bytes_of (on_wire 0 1 a)) [], length-bytes_of (on_wire 0 1 a) h)
length-bytes_all (a ∷ b ∷ hops) (h, hs) = omega (
  arith,
  length-append (bytes_of (on_wire 0 0 a)) (bytes_all (wire_hops (b ∷ hops))),
  length-bytes_of (on_wire 0 0 a) h,
  length-bytes_all (b ∷ hops) hs,
)
