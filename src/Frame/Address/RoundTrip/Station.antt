-- ===== src/Frame/Address/RoundTrip/Station.antt =====
-- One station and a list of repeaters as they stand in an address field of frame.c.
use patty.Prelude.{
  All, Bool, List, [], ap, append-nil, append_assoc, ap₂, arith, bit_and, bit_or, false, length,
  length-append, ltb, map, refl, replicate, suc, sym, true, zero, ℕ, ◌%◌, ◌*◌, ◌++◌, ◌+◌, ◌/◌, ◌<◌,
  ◌==◌, ◌^◌, ◌||◌, ◌∙◌, ◌∷◌, ◌≡◌, ◌≤◌,
}
use patty.Prelude.Bits.{and_0x01, and_0x0f, and_0x1e, and_field, or_add}
use patty.Result.{ok, read, read_append, read_bytes, read_bytes_append}
use patty.Frame.{Addr, addr_size, callstrlen, is_octet_last, ssid_c, ssid_number}
use patty.Frame.Address.{
  addr_copy, check_callsign, copy_all, decode_hops, decode_station, mark_last,
}

-- Text of visible characters, padded by spaces, each character shifted left by one.
abbrev pub IsVisible : ℕ → Type 0
IsVisible c = (0x21 ≤ c) × (c ≤ 0x7e)

pub record IsCallsign (callsign : List ℕ) : Type 0 where
  pub text : List ℕ
  pub padding : ℕ
  pub visible : All IsVisible text
  pub shifted : callsign ≡ map (λ c. c * 2) (text ++ replicate padding 0x20)
  pub full : length callsign ≡ callstrlen

abbrev doubled : List ℕ → List ℕ
doubled = map (λ c. c * 2)

check_padding : (n : ℕ) (space : Bool) → check_callsign (doubled (replicate n 0x20)) space ≡ ok tt
unfolding check_callsign
check_padding zero space = refl
check_padding (suc n) space = check_padding n (space || true)

check_text :
    (text : List ℕ) (n : ℕ)
    → All IsVisible text
    → check_callsign (doubled (text ++ replicate n 0x20)) false ≡ ok tt
unfolding check_callsign
check_text [] n h = check_padding n false
check_text (c ∷ cs) n (h, hs) = ground (arith, and_0x01 (c * 2), check_text cs n hs)

-- A station as it stands on the air.
abbrev pub bytes_of : Addr → List ℕ
bytes_of a = a.callsign ++ (a.ssid ∷ [])

pub decode_station_bytes :
    (before rest : List ℕ) (a : Addr) (len : ℕ)
    → IsCallsign a.callsign
    → length before + addr_size ≤ len
    → decode_station (before ++ (bytes_of a ++ rest)) (length before) len ≡ ok a
unfolding decode_station
decode_station_bytes before rest a len c h = rw (regroup, long_enough, prefix, check, ssid_at)
  where
    open a use {callsign, ssid}

    regroup : bytes_of a ++ rest ≡ callsign ++ (ssid ∷ rest)
    regroup = append_assoc callsign (ssid ∷ []) rest

    long_enough : ltb len (length before + addr_size) ≡ false
    long_enough = ground arith

    prefix :
        read_bytes (before ++ (callsign ++ (ssid ∷ rest))) (length before) callstrlen ≡ ok callsign
    prefix = rw (← c.full) (read_bytes_append before callsign (ssid ∷ rest))

    check : check_callsign callsign false ≡ ok tt
    check = rw c.shifted (check_text c.text c.padding c.visible)

    ssid_at : read (before ++ (callsign ++ (ssid ∷ rest))) (length before + callstrlen) ≡ ok ssid
    ssid_at =
        rw (← append_assoc before callsign (ssid ∷ rest), ← c.full, ← length-append before callsign)
          (read_append (before ++ callsign) ssid rest)

-- The SSID byte that patty_ax25_addr_copy writes, with the extension bit behind it.
abbrev pub wire_ssid : ℕ → ℕ → ℕ → ℕ
wire_ssid flags ssid last = flags + 0x60 + ssid / 2 % 16 * 2 + last

and_0x1e_even : (s : ℕ) → bit_and s 0x1e ≡ s / 2 % 16 * 2
and_0x1e_even s = omega (arith, and_field 1 s 0x0f, and_0x0f (s / 2))

copied_ssid :
    (command_bit s : ℕ)
    → command_bit < 2
    → bit_or (bit_or (command_bit * 128) 0x60) (bit_and s 0x1e) ≡ wire_ssid (command_bit * 128) s 0
copied_ssid command_bit s h =
    rw (and_0x1e_even s, or_add 7 command_bit 0x60 (omega arith), high) (low ∙ omega arith)
  where
    high : command_bit * 128 + 0x60 ≡ (command_bit * 4 + 3) * 2 ^ 5
    high = omega arith

    low :
        bit_or ((command_bit * 4 + 3) * 2 ^ 5) (s / 2 % 16 * 2)
        ≡ (command_bit * 4 + 3) * 2 ^ 5 + s / 2 % 16 * 2
    low = or_add 5 (command_bit * 4 + 3) (s / 2 % 16 * 2) (omega arith)

marked_ssid : (flags s : ℕ) → bit_or (wire_ssid (flags * 128) s 0) 1 ≡ wire_ssid (flags * 128) s 1
marked_ssid flags s =
    let even : wire_ssid (flags * 128) s 0 ≡ (flags * 64 + 0x30 + s / 2 % 16) * 2 ^ 1 =
      omega arith in
    rw even (or_add 1 (flags * 64 + 0x30 + s / 2 % 16) 1 (omega arith) ∙ omega arith)

-- What the decoder reads off such a byte.
pub wire_number :
    (flags s last : ℕ) → last < 2 → ssid_number (wire_ssid (flags * 128) s last) ≡ ssid_number s
wire_number flags s last h = omega (arith, and_0x1e (wire_ssid (flags * 128) s last), and_0x1e s)

pub wire_last :
    (flags s last : ℕ) → last < 2 → is_octet_last (wire_ssid (flags * 128) s last) ≡ (last == 1)
wire_last flags s last h = ground (arith, and_0x01 (wire_ssid (flags * 128) s last))

pub wire_c :
    (flags s last : ℕ)
    → flags < 2
    → last < 2
    → ssid_c (wire_ssid (flags * 128) s last) ≡ (flags == 1)
wire_c flags s last hf hl = ground (
  arith,
  and_field 7 (wire_ssid (flags * 128) s last) 1,
  and_0x01 (wire_ssid (flags * 128) s last / 128),
)

-- The address as it is read back.
abbrev pub on_wire : ℕ → ℕ → Addr → Addr
on_wire flags last a = record { callsign = a.callsign; ssid = wire_ssid (flags * 128) a.ssid last }

pub addr_copy-bytes_of :
    (flags : ℕ) (a : Addr) → flags < 2 → addr_copy a (flags * 128) ≡ bytes_of (on_wire flags 0 a)
unfolding addr_copy
addr_copy-bytes_of flags a h = rw (copied_ssid flags a.ssid h)

abbrev pub wire_hops : List Addr → List Addr
wire_hops [] = []
wire_hops (a ∷ []) = on_wire 0 1 a ∷ []
wire_hops (a ∷ b ∷ rest) = on_wire 0 0 a ∷ wire_hops (b ∷ rest)

abbrev pub bytes_all : List Addr → List ℕ
bytes_all [] = []
bytes_all (a ∷ rest) = bytes_of a ++ bytes_all rest

pub length-bytes_of : (a : Addr) → IsCallsign a.callsign → length (bytes_of a) ≡ addr_size
length-bytes_of a c = omega (arith, length-append a.callsign (a.ssid ∷ []), c.full)

abbrev pub HasCallsign : Addr → Type 0
HasCallsign a = IsCallsign a.callsign

pub length-wire_hops : (hops : List Addr) → length (wire_hops hops) ≡ length hops
length-wire_hops [] = refl
length-wire_hops (a ∷ []) = refl
length-wire_hops (a ∷ b ∷ rest) = ap suc (length-wire_hops (b ∷ rest))

-- The mark falls on the last byte of what is not empty.
pub mark_last-append : (xs ys : List ℕ) → 0 < length ys → mark_last (xs ++ ys) ≡ xs ++ mark_last ys
mark_last-append [] ys h = refl
mark_last-append (x ∷ []) [] h = absurd (omega arith)
mark_last-append (x ∷ []) (y ∷ ys) h = refl
mark_last-append (x ∷ z ∷ xs) ys h = ap (λ l. x ∷ l) (mark_last-append (z ∷ xs) ys h)

pub mark_last-bytes_of :
    (flags : ℕ) (a : Addr) → mark_last (bytes_of (on_wire flags 0 a)) ≡ bytes_of (on_wire flags 1 a)
mark_last-bytes_of flags a =
    mark_last-append a.callsign (wire_ssid (flags * 128) a.ssid 0 ∷ []) (omega arith)
    ∙ ap (λ s. a.callsign ++ (s ∷ [])) (marked_ssid flags a.ssid)

pub copy_all_pos : (a : Addr) (rest : List Addr) → 0 < length (copy_all (a ∷ rest))
unfolding copy_all addr_copy
copy_all_pos a rest = omega (
  arith,
  length-append (a.callsign ++ (bit_or (bit_or 0 0x60) (bit_and a.ssid 0x1e) ∷ [])) (copy_all rest),
  length-append a.callsign (bit_or (bit_or 0 0x60) (bit_and a.ssid 0x1e) ∷ []),
)

pub mark_last-copy_all :
    (a : Addr) (rest : List Addr)
    → mark_last (copy_all (a ∷ rest)) ≡ bytes_all (wire_hops (a ∷ rest))
unfolding copy_all
mark_last-copy_all a [] =
    rw (addr_copy-bytes_of 0 a (omega arith), append-nil (bytes_of (on_wire 0 0 a)))
      (mark_last-bytes_of 0 a ∙ sym (append-nil _))
mark_last-copy_all a (b ∷ rest) =
    mark_last-append (addr_copy a 0) (copy_all (b ∷ rest)) (copy_all_pos b rest)
    ∙ ap₂ ◌++◌ (addr_copy-bytes_of 0 a (omega arith)) (mark_last-copy_all b rest)

-- The repeaters are read up to the one that is marked.
pub decode_hops_wire :
    (rounds : ℕ) (a : Addr) (hops : List Addr) (before rest : List ℕ) (len : ℕ)
    → All HasCallsign (a ∷ hops)
    → length (a ∷ hops) ≤ rounds
    → length before + addr_size * length (a ∷ hops) ≤ len
    → decode_hops rounds (before ++ (bytes_all (wire_hops (a ∷ hops)) ++ rest)) (length before) len
      ≡ ok (wire_hops (a ∷ hops), length before + addr_size * length (a ∷ hops))
unfolding decode_hops
decode_hops_wire zero a hops before rest len c lt fits = absurd (omega arith)
decode_hops_wire (suc rounds) a [] before rest len c lt fits =
    let station = decode_station_bytes before rest (on_wire 0 1 a) len c.0 (omega arith) in
    rw (append-nil, station) (rw (wire_last 0 a.ssid 1 (omega arith)))
decode_hops_wire (suc rounds) a (b ∷ hops) before rest len c lt fits =
    let wire = on_wire 0 0 a in
    let others = bytes_all (wire_hops (b ∷ hops)) in
    let behind : length (before ++ bytes_of wire) ≡ length before + addr_size =
      omega (arith, length-append before (bytes_of wire), length-bytes_of wire c.0) in
    let ih =
      decode_hops_wire rounds b hops (before ++ bytes_of wire) rest len c.1 (omega arith)
        (omega (arith, behind)) in
    let ih' : decode_hops rounds (before ++ (bytes_of wire ++ (others ++ rest)))
          (length before + addr_size) len
        ≡ ok (wire_hops (b ∷ hops), length before + addr_size + addr_size * length (b ∷ hops)) =
      rw (append_assoc before (bytes_of wire) (others ++ rest), behind) at ih in
    let station = decode_station_bytes before (others ++ rest) wire len c.0 (omega arith) in
    rw (append_assoc (bytes_of wire) others rest, station)
      (rw (wire_last 0 a.ssid 0 (omega arith))
        (rw ih' (ap (λ (n : ℕ). ok (wire_hops (a ∷ b ∷ hops), n)) (omega arith))))
