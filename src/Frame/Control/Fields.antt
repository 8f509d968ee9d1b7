-- ===== src/Frame/Control/Fields.antt =====
-- How frame.c reads the fields of a control field, by division and remainder.
use patty.Prelude.{arith, bit_and, refl, true, ℕ, ◌%◌, ◌/◌, ◌≡◌}
use patty.Prelude.Bits.{
  and_0x01, and_0x0100, and_0x03, and_0x0e, and_0x0f, and_0x10, and_0x7e, and_0x7e00, and_0xe0,
}
use patty.Result.{ok}
use patty.Frame.{Frame, extended, normal}
use patty.Frame.Kind
use patty.Frame.Control.{classify, decode_nr, decode_ns, decode_pf, is_s_kind}

-- An I frame with the fields `nr`, `ns` and `pf`.
abbrev pub i_frame : Frame → ℕ → ℕ → ℕ → Frame
i_frame frame nr ns pf = record frame { kind = Kind.i; nr = nr; ns = ns; pf = pf }

-- An S frame of a kind.
abbrev pub s_frame : Frame → ℕ → ℕ → ℕ → Frame
s_frame frame kind nr pf = record frame { kind = kind; nr = nr; pf = pf }

pub classify_i :
    (frame : Frame) (c : ℕ)
    → c % 2 ≡ 0
    → classify frame c normal ≡ ok (i_frame frame (c / 32 % 8) (c / 2 % 8) (c / 16 % 2))
unfolding classify decode_nr decode_ns decode_pf
classify_i frame c h =
    let even : bit_and c 0x1 ≡ 0x00 = omega (arith, and_0x01 c) in
    rw (even, and_0xe0 c, and_0x0e c, and_0x10 c) refl

-- Of the seven bits of a sequence number six are read.
pub classify_i_extended :
    (frame : Frame) (c : ℕ)
    → c % 2 ≡ 0
    → classify frame c extended ≡ ok (i_frame frame (c / 512 % 64) (c / 2 % 64) (c / 256 % 2))
unfolding classify decode_nr decode_ns decode_pf
classify_i_extended frame c h =
    let even : bit_and c 0x1 ≡ 0x00 = omega (arith, and_0x01 c) in
    rw (even, and_0x7e00 c, and_0x7e c, and_0x0100 c) refl

pub classify_s :
    (frame : Frame) (c : ℕ)
    → c % 4 ≡ 1
    → is_s_kind (c % 16) ≡ true
    → classify frame c normal ≡ ok (s_frame frame (c % 16) (c / 32 % 8) (c / 16 % 2))
unfolding classify decode_nr decode_ns decode_pf
classify_s frame c h known =
    let odd : bit_and c 0x1 ≡ 0x01 = omega (arith, and_0x01 c) in
    let is_s : bit_and c 0x03 ≡ 0x01 = omega (arith, and_0x03 c) in
    rw (odd, is_s, and_0x0f c, known, and_0xe0 c, and_0x10 c) refl
