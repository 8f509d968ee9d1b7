-- ===== src/Frame/Address/Tests.antt =====
-- The round trip of the address field at a concrete frame.
use patty.Prelude.{List, [], arith, false, length, none, refl, ℕ, ◌*◌, ◌++◌, ◌∷◌, ◌≡◌}
use patty.Result.{ok}
use patty.Frame.{Addr, Frame, command, normal, v2_0}
use patty.Frame.Kind
use patty.Frame.Address.{
  addr_copy, copy_all, decode_address, encode_address, flags_local, flags_remote,
}
use patty.Frame.Address.RoundTrip.{decode_address-encode_address}
use patty.Frame.Address.RoundTrip.Station.{IsCallsign}
use patty.Frame.Address.RoundTrip.Field.{ReadBack}

-- The callsign N0CALL, and K1A padded by spaces.
abbrev n0call : List ℕ
n0call = (2 * 0x4e) ∷ (2 * 0x30) ∷ (2 * 0x43) ∷ (2 * 0x41) ∷ (2 * 0x4c) ∷ (2 * 0x4c) ∷ []

abbrev k1a : List ℕ
k1a = (2 * 0x4b) ∷ (2 * 0x31) ∷ (2 * 0x41) ∷ (2 * 0x20) ∷ (2 * 0x20) ∷ (2 * 0x20) ∷ []

abbrev hop : Addr
hop = record { callsign = k1a; ssid = 2 }

-- A command from N0CALL to K1A by way of one repeater.
abbrev repeated : Frame
repeated = record {
  dest = record { callsign = k1a; ssid = 0 };
  src = record { callsign = n0call; ssid = 4 };
  repeaters = hop ∷ [];
  hops = 1;
  control = 0;
  nr = 0;
  ns = 0;
  pf = 0;
  cr = command;
  kind = Kind.unknown;
  format = normal;
  version = v2_0;
  proto = 0;
  info = none;
  infolen = 0;
}

abbrev field : List ℕ
field = k1a ++ (0xe0 ∷ (n0call ++ (0x64 ∷ (k1a ++ (0x63 ∷ [])))))

encodes : encode_address repeated false 100 ≡ ok field
unfolding encode_address addr_copy flags_remote flags_local copy_all
encodes = refl

k1a-IsCallsign : IsCallsign k1a
k1a-IsCallsign = record {
  text = 0x4b ∷ 0x31 ∷ 0x41 ∷ [];
  padding = 3;
  visible =
      ((omega arith, omega arith), ((omega arith, omega arith), ((omega arith, omega arith), tt)));
  shifted = refl;
  full = refl;
}

n0call-IsCallsign : IsCallsign n0call
n0call-IsCallsign = record {
  text = 0x4e ∷ 0x30 ∷ 0x43 ∷ 0x41 ∷ 0x4c ∷ 0x4c ∷ [];
  padding = 0;
  visible = (
    (omega arith, omega arith),
    (
      (omega arith, omega arith),
      (
        (omega arith, omega arith),
        (
          (omega arith, omega arith),
          ((omega arith, omega arith), ((omega arith, omega arith), tt)),
        ),
      ),
    ),
  );
  shifted = refl;
  full = refl;
}

decode_address-encode_address_example :
    (h : Frame) × (decode_address repeated (field ++ (0x3f ∷ [])) (length (field ++ (0x3f ∷ [])))
      ≡ ok (h, length field))
    × ReadBack repeated h
decode_address-encode_address_example =
    decode_address-encode_address repeated repeated 100 field (0x3f ∷ []) k1a-IsCallsign
      n0call-IsCallsign (k1a-IsCallsign, tt) refl (omega arith) encodes
