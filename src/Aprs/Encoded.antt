-- ===== src/Aprs/Encoded.antt =====
-- The frame of a packet is encoded into a buffer that has room for a header.
use patty.Prelude.{
  All, Bool-cases, List, [], ap, arith, false, inl, inr, leb, length, length-append, ltb, refl,
  some, suc, take, take_all, true, ℕ, ◌%◌, ◌*◌, ◌++◌, ◌+◌, ◌<◌, ◌==◌, ◌∙◌, ◌∷◌, ◌≡◌, ◌≢◌, ◌≤◌,
}
use patty.Result.{Errno, Result, err, fault, ok}
use patty.Frame.{Addr, Frame, addr_size, callstrlen, max_hops, normal}
use patty.Frame.Kind
use patty.Frame.Address.{addr_copy, copy_all, encode_address, flags_local, flags_remote, mark_last}
use patty.Frame.Control.{append_info, control_bytes, encode, has_info, in_buffer, info_bytes}

-- An address of six characters.
abbrev pub IsWhole : Addr → Type 0
IsWhole addr = length addr.callsign ≡ callstrlen

pub record IsSound (frame : Frame) : Type 0 where
  pub dest_is : IsWhole frame.dest
  pub src_is : IsWhole frame.src
  pub hops_are : All IsWhole frame.repeaters
  pub hops_is : length frame.repeaters ≡ frame.hops
  pub hops_fit : frame.hops ≤ max_hops
  pub format_is : frame.format ≡ normal

-- The most bytes that the address and control fields take.
abbrev pub header_max : ℕ
header_max = (2 + max_hops) * addr_size + 1

length-mark_last : (bytes : List ℕ) → length (mark_last bytes) ≡ length bytes
length-mark_last [] = refl
length-mark_last (b ∷ []) = refl
length-mark_last (b ∷ c ∷ bytes) = ap suc (length-mark_last (c ∷ bytes))

length-addr_copy :
    (addr : Addr) (flags : ℕ) → IsWhole addr → length (addr_copy addr flags) ≡ addr_size
unfolding addr_copy
length-addr_copy addr flags h = length-append addr.callsign _ ∙ omega (arith, h)

length-copy_all :
    (hops : List Addr) → All IsWhole hops → length (copy_all hops) ≡ length hops * addr_size
unfolding copy_all
length-copy_all [] h = refl
length-copy_all (a ∷ hops) (h, hs) =
    length-append (addr_copy a 0) (copy_all hops)
    ∙ omega (arith, length-addr_copy a 0 h, length-copy_all hops hs)

-- The address field, where there is room for it.
encode_address-fits :
    (frame : Frame) (len : ℕ)
    → IsSound frame
    → header_max ≤ len
    → (address : List ℕ) × (encode_address frame false len ≡ ok address)
      × (length address < header_max)
unfolding encode_address
encode_address-fits frame len h room =
    let hops = take frame.hops frame.repeaters in
    let all_hops : hops ≡ frame.repeaters = rw (← h.hops_is) (take_all frame.repeaters) in
    let dest = addr_copy frame.dest (flags_remote frame.cr) in
    let src = addr_copy frame.src (flags_local frame.cr) in
    let fits : ltb len ((2 + frame.hops) * addr_size) ≡ false = ground (arith, h.hops_fit) in
    let short : length (mark_last (dest ++ (src ++ copy_all frame.repeaters))) < header_max =
      omega (
        arith,
        h.hops_fit,
        h.hops_is,
        length-mark_last (dest ++ (src ++ copy_all frame.repeaters)),
        length-append dest (src ++ copy_all frame.repeaters),
        length-append src (copy_all frame.repeaters),
        length-copy_all frame.repeaters h.hops_are,
        length-addr_copy frame.dest (flags_remote frame.cr) h.dest_is,
        length-addr_copy frame.src (flags_local frame.cr) h.src_is,
      ) in
    (_, rw (fits, all_hops) refl, short)

-- A UI frame with all of its information.
pub record IsUi (frame : Frame) (body : List ℕ) : Type 0 where
  pub control_is : frame.control ≡ Kind.ui
  pub info_is : frame.info ≡ some body
  pub infolen_is : frame.infolen ≡ length body

ok-ne_fault : {A : Type 0} {a : A} → ok a ≡ fault → ⊥
ok-ne_fault h = cc

err-ne_fault : {A : Type 0} {e : Errno} → ◌≡◌ {A = Result A} (err e) fault → ⊥
err-ne_fault h = cc

-- The bytes of the frame, or the error where the information does not fit.
pub encode-ne_fault :
    (frame : Frame) (body : List ℕ) (len : ℕ)
    → IsSound frame
    → IsUi frame body
    → header_max ≤ len
    → encode frame len ≢ fault
unfolding encode in_buffer control_bytes has_info append_info info_bytes
encode-ne_fault frame body len h ui room e =
    let (address, encoded, short) = encode_address-fits frame len h room in
    let field = address ++ (Kind.ui % 256 ∷ []) in
    let fits : leb (length field) len ≡ true =
      ground (arith, length-append address (Kind.ui % 256 ∷ [])) in
    let whole : leb (0 + length body) (length body) ≡ true = ground arith in
    elim (Bool-cases (length body == 0)) [
      | inl z ↦
          ok-ne_fault
            (rw (encoded, h.format_is, ui.control_is, ui.info_is, ui.infolen_is, fits, z) at e)
      | inr z ↦ elim (Bool-cases (ltb len (1 + length field + length body))) [
        | inl over ↦ err-ne_fault (
            rw (encoded, h.format_is, ui.control_is, ui.info_is, ui.infolen_is, fits, z, over) at e)
        | inr under ↦ ok-ne_fault (
            rw
              (
                encoded, h.format_is, ui.control_is, ui.info_is, ui.infolen_is, fits, z, under,
                whole,
              )
              at e)
      ]
    ]
