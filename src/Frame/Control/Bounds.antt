-- ===== src/Frame/Control/Bounds.antt =====
-- The range of the N(R) that frame.c decodes.
use patty.Prelude.{
  Bool, List, arith, bit_and, false, if◌then◌else◌, refl, true, ℕ, ◌<◌, ◌==◌, ◌||◌, ◌≡◌,
}
use patty.Prelude.Bits.{and_0x7e00, and_0xe0}
use patty.Result.{Yields, any-Yields, bind-Yields, eio, if-Yields, no_value, read, some_value}
use patty.Frame.{Format, Frame, extended, is_control_i, is_control_s, is_control_u, normal}
use patty.Frame.Kind
use patty.Frame.Control.{
  attach_info, classify, decode_control, decode_nr, is_s_kind, is_u_kind, read_control,
}

abbrev pub seq_count : Format → ℕ
seq_count normal = 8
seq_count extended = 128

decode_nr-below : (control : ℕ) (format : Format) → decode_nr control format < seq_count format
unfolding decode_nr
decode_nr-below control normal = omega (arith, and_0xe0 control)
decode_nr-below control extended = omega (arith, and_0x7e00 control)

zero-below : (format : Format) → 0 < seq_count format
zero-below normal = omega arith
zero-below extended = omega arith

-- A choice between two frames.
choose-below :
    (f g : Frame) (n : ℕ) (test : Bool) → f.nr < n → g.nr < n → (if test then f else g).nr < n
choose-below f g n true p q = p
choose-below f g n false p q = q

abbrev Below : ℕ → Frame → Type 0
Below n frame = frame.nr < n

classify-Below :
    (frame : Frame) (control : ℕ) (format : Format)
    → frame.nr ≡ 0
    → Yields (Below (seq_count format)) (classify frame control format)
unfolding classify
classify-Below frame control format zero_nr =
    let old : frame.nr < seq_count format = rw zero_nr (zero-below format) in
    let new = decode_nr-below control format in
    let s_test = is_s_kind (bit_and control 0x0f) in
    let u_test = is_u_kind (bit_and control 0xef) in
    if-Yields (is_control_i control) (some_value _ new) (
      if-Yields (is_control_s control)
        (some_value _ (choose-below _ frame (seq_count format) s_test new old))
        (if-Yields (is_control_u control)
          (some_value _ (choose-below _ frame (seq_count format) u_test old old)) (no_value eio)))

-- The bound on the frame that comes with an offset.
abbrev pub BelowAt : ℕ → Frame × ℕ → Type 0
BelowAt n out = out.0.nr < n

attach_info-Below :
    (n : ℕ) (frame : Frame) (buf : List ℕ) (offset len : ℕ)
    → frame.nr < n
    → Yields (BelowAt n) (attach_info frame buf offset len)
unfolding attach_info
attach_info-Below n frame buf offset len h =
    if-Yields (frame.kind == Kind.i || frame.kind == Kind.ui)
      (bind-Yields (read buf offset) _ (any-Yields (read buf offset)) (λ proto x. some_value _ h))
      (if-Yields (frame.kind == Kind.test) (some_value _ h) (some_value _ h))

-- The N(R) of a frame that patty_ax25_frame_decode_control returns is below 8, and below 128 in the
-- extended format.
pub decode_control-Below :
    (frame : Frame) (format : Format) (buf : List ℕ) (offset len : ℕ)
    → Yields (BelowAt (seq_count format)) (decode_control frame format buf offset len)
unfolding decode_control
decode_control-Below frame format buf offset len =
    let control = read_control format buf offset in
    bind-Yields control _ (any-Yields control) (λ out x.
      bind-Yields _ _ (classify-Below _ out.0 format refl)
        (λ classified below. attach_info-Below (seq_count format) classified buf out.1 len below))
