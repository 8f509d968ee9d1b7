-- ===== src/Frame/Address/RoundTrip.antt =====
-- What encode_address writes, decode_address reads back.
pub mod Station
pub mod Field
use patty.Prelude.{
  All, List, [], ap, append_assoc, arith, false, length, length-append, refl, subst, sym, ℕ, ◌*◌,
  ◌++◌, ◌+◌, ◌∙◌, ◌∷◌, ◌≡◌, ◌≤◌,
}
use patty.Result.{ok}
use patty.Frame.{Addr, Frame, addr_size, max_hops}
use patty.Frame.Address.{copy_all, decode_address, encode_address, mark_last}
use patty.Frame.Address.RoundTrip.Station.{
  HasCallsign, IsCallsign, bytes_all, bytes_of, decode_hops_wire, length-bytes_of, length-wire_hops,
  wire_hops,
}
use patty.Frame.Address.RoundTrip.Field.{
  ReadBack, decode_address_wire, encode_address_direct, field_direct, field_repeated,
  length-bytes_all, wire_dest, wire_hops-SameStations, wire_src,
}

Decodes : Frame → Frame → List ℕ → List ℕ → Type 0
Decodes f g bytes rest =
    (h : Frame) × (decode_address g (bytes ++ rest) (length (bytes ++ rest)) ≡ ok (h, length bytes))
    × ReadBack f h

no_hops-Decodes :
    (f g : Frame) (rest : List ℕ)
    → IsCallsign f.dest.callsign
    → IsCallsign f.src.callsign
    → f.repeaters ≡ []
    → f.hops ≡ 0
    → Decodes f g (bytes_of (wire_dest f) ++ bytes_of (wire_src f 1)) rest
unfolding Decodes
no_hops-Decodes f g rest cd cs none_left h =
    let bytes : List ℕ = bytes_of (wire_dest f) ++ bytes_of (wire_src f 1) in
    let fourteen : length bytes ≡ 2 * addr_size = omega (
      arith,
      length-append (bytes_of (wire_dest f)) (bytes_of (wire_src f 1)),
      length-bytes_of (wire_dest f) cd,
      length-bytes_of (wire_src f 1) cs,
    ) in
    let (r, run, back) =
      decode_address_wire f g 1 rest (length (bytes ++ rest)) (2 * addr_size) [] (omega arith) cd cs
        (omega (arith, length-append bytes rest, fourteen)) refl (rw none_left tt) (sym h) in
    (
      r,
      ap (λ l. decode_address g l (length (bytes ++ rest)))
            (append_assoc (bytes_of (wire_dest f)) (bytes_of (wire_src f 1)) rest)
          ∙ run
          ∙ ap (λ (n : ℕ). ok (r, n)) (sym fourteen),
      back,
    )

some_hops-Decodes :
    (f g : Frame) (a : Addr) (hops : List Addr) (rest : List ℕ)
    → IsCallsign f.dest.callsign
    → IsCallsign f.src.callsign
    → All HasCallsign (a ∷ hops)
    → f.repeaters ≡ a ∷ hops
    → f.hops ≡ length (a ∷ hops)
    → length (a ∷ hops) ≤ max_hops
    → Decodes f g
        (bytes_of (wire_dest f) ++ (bytes_of (wire_src f 0) ++ bytes_all (wire_hops (a ∷ hops))))
        rest
unfolding Decodes
some_hops-Decodes f g a hops rest cd cs ch listed counted few =
    let wires = bytes_all (wire_hops (a ∷ hops)) in
    let front : List ℕ = bytes_of (wire_dest f) ++ bytes_of (wire_src f 0) in
    let bytes : List ℕ = bytes_of (wire_dest f) ++ (bytes_of (wire_src f 0) ++ wires) in
    let fourteen : length front ≡ 2 * addr_size = omega (
      arith,
      length-append (bytes_of (wire_dest f)) (bytes_of (wire_src f 0)),
      length-bytes_of (wire_dest f) cd,
      length-bytes_of (wire_src f 0) cs,
    ) in
    let regroup : bytes ++ rest
        ≡ bytes_of (wire_dest f) ++ (bytes_of (wire_src f 0) ++ (wires ++ rest)) =
      simp append_assoc in
    let ungroup : front ++ (wires ++ rest)
        ≡ bytes_of (wire_dest f) ++ (bytes_of (wire_src f 0) ++ (wires ++ rest)) =
      append_assoc (bytes_of (wire_dest f)) (bytes_of (wire_src f 0)) (wires ++ rest) in
    let total : length bytes ≡ 2 * addr_size + addr_size * length (a ∷ hops) = omega (
      arith,
      length-append (bytes_of (wire_dest f)) (bytes_of (wire_src f 0) ++ wires),
      length-append (bytes_of (wire_src f 0)) wires,
      length-bytes_of (wire_dest f) cd,
      length-bytes_of (wire_src f 0) cs,
      length-bytes_all (a ∷ hops) ch,
    ) in
    let hops_at =
      decode_hops_wire max_hops a hops front rest (length (bytes ++ rest)) ch few
        (omega (arith, length-append bytes rest, total, fourteen)) in
    let (r, run, back) =
      decode_address_wire f g 0 (wires ++ rest) (length (bytes ++ rest))
        (2 * addr_size + addr_size * length (a ∷ hops)) (wire_hops (a ∷ hops)) (omega arith) cd cs
        (omega (arith, length-append bytes rest, total)) (rw (fourteen, ungroup) at hops_at)
        (rw listed (wire_hops-SameStations (a ∷ hops)))
        (length-wire_hops (a ∷ hops) ∙ sym counted) in
    (
      r,
      ap (λ l. decode_address g l (length (bytes ++ rest))) regroup
          ∙ run
          ∙ ap (λ (n : ℕ). ok (r, n)) (sym total),
      back,
    )

-- An address field that encode_address has written for a frame with its own repeaters is read back
-- by patty_ax25_frame_decode_address, whatever follows it: the whole field is taken, and the
-- stations, the order and number of the repeaters and the command bits are those of the frame.
-- The callsigns are visible text padded by spaces, and there are at most eight repeaters.
pub decode_address-encode_address :
    (f g : Frame) (len : ℕ) (bytes rest : List ℕ)
    → IsCallsign f.dest.callsign
    → IsCallsign f.src.callsign
    → All HasCallsign f.repeaters
    → f.hops ≡ length f.repeaters
    → f.hops ≤ max_hops
    → encode_address f false len ≡ ok bytes
    → (h : Frame) × (decode_address g (bytes ++ rest) (length (bytes ++ rest))
        ≡ ok (h, length bytes))
      × ReadBack f h
unfolding Decodes
decode_address-encode_address f g len bytes rest cd cs ch counted few encoded = go f.repeaters refl
  where
    direct :
        mark_last (bytes_of (wire_dest f) ++ (bytes_of (wire_src f 0) ++ copy_all f.repeaters))
        ≡ bytes
    direct = encode_address_direct f len counted encoded

    go : (hops : List Addr) → f.repeaters ≡ hops → Decodes f g bytes rest
    go [] e =
        subst (λ l. Decodes f g l rest) (sym (field_direct f) ∙ (rw e at direct))
          (no_hops-Decodes f g rest cd cs e (rw e at counted))
    go (a ∷ hops) e =
        subst (λ l. Decodes f g l rest) (sym (field_repeated f a hops) ∙ (rw e at direct))
          (some_hops-Decodes f g a hops rest cd cs (rw e at ch) e (rw e at counted)
            (omega (arith, ap length e)))
