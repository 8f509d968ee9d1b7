-- ===== src/Sock/Output/Control.antt =====
-- The control fields that sock.c sends, as frame.c reads them.
use patty.Prelude.{arith, refl, true, ℕ, ◌%◌, ◌*◌, ◌+◌, ◌/◌, ◌<◌, ◌^◌, ◌∙◌, ◌≡◌}
use patty.Prelude.Bits.{and_0x07, and_0x0f, and_0x7f, mid_or, or_add}
use patty.Result.{ok}
use patty.Frame.{Frame, extended, normal}
use patty.Frame.Control.{classify, is_s_kind}
use patty.Frame.Control.Fields.{classify_i, classify_i_extended, classify_s, i_frame, s_frame}
use patty.Sock.{sabm, sabme}
use patty.Sock.Output.{control_i, control_s}

-- The control fields as sums.
i_sum :
    (vr ns flag : ℕ) → flag < 2 → control_i sabm vr ns flag ≡ vr % 8 * 32 + flag * 16 + ns % 8 * 2
unfolding control_i
i_sum vr ns flag h =
    rw (and_0x07 vr, and_0x07 ns, or_add 5 (vr % 8) (ns % 8 * 2 ^ 1) (omega arith))
      (mid_or 4 (vr % 8) flag (ns % 8 * 2) (omega arith) h)

i_sum_extended :
    (vr ns flag : ℕ)
    → flag < 2
    → control_i sabme vr ns flag ≡ vr % 128 * 512 + flag * 256 + ns % 128 * 2
unfolding control_i
i_sum_extended vr ns flag h =
    rw (and_0x7f vr, and_0x7f ns, or_add 9 (vr % 128) (ns % 128 * 2 ^ 1) (omega arith))
      (mid_or 8 (vr % 128) flag (ns % 128 * 2) (omega arith) h)

s_sum :
    (vr kind flag : ℕ)
    → flag < 2
    → control_s sabm vr kind flag ≡ vr % 8 * 32 + flag * 16 + kind % 16
unfolding control_s
s_sum vr kind flag h =
    rw (and_0x07 vr, and_0x0f kind, or_add 5 (vr % 8) (kind % 16) (omega arith))
      (mid_or 4 (vr % 8) flag (kind % 16) (omega arith) h)

s_sum_extended :
    (vr kind flag : ℕ)
    → flag < 2
    → control_s sabme vr kind flag ≡ vr % 128 * 512 + flag * 256 + kind % 16
unfolding control_s
s_sum_extended vr kind flag h =
    rw (and_0x7f vr, and_0x0f kind, or_add 9 (vr % 128) (kind % 16) (omega arith))
      (mid_or 8 (vr % 128) flag (kind % 16) (omega arith) h)

-- The control field of an I frame in SABM mode is read as an I frame, with V(R) as its N(R), the
-- sequence number as its N(S), each modulo 8, and the poll bit, which is 0 or 1.
pub classify-control_i :
    (frame : Frame) (vr ns flag : ℕ)
    → flag < 2
    → classify frame (control_i sabm vr ns flag) normal ≡ ok (i_frame frame (vr % 8) (ns % 8) flag)
classify-control_i frame vr ns flag h =
    let c = control_i sabm vr ns flag in
    let sum = i_sum vr ns flag h in
    let nr : c / 32 % 8 ≡ vr % 8 = omega (arith, sum) in
    let sent : c / 2 % 8 ≡ ns % 8 = omega (arith, sum) in
    let pf : c / 16 % 2 ≡ flag = omega (arith, sum) in
    classify_i frame c (omega (arith, sum)) ∙ rw (nr, sent, pf) refl

-- The control field of an I frame in SABME mode, which holds V(R) and the sequence number modulo
-- 128, is read with both modulo 64 only.
pub classify-control_i_extended :
    (frame : Frame) (vr ns flag : ℕ)
    → flag < 2
    → (control_i sabme vr ns flag / 512 ≡ vr % 128)
      × (classify frame (control_i sabme vr ns flag) extended
          ≡ ok (i_frame frame (vr % 64) (ns % 64) flag))
classify-control_i_extended frame vr ns flag h =
    let c = control_i sabme vr ns flag in
    let sum = i_sum_extended vr ns flag h in
    let nr : c / 512 % 64 ≡ vr % 64 = omega (arith, sum) in
    let sent : c / 2 % 64 ≡ ns % 64 = omega (arith, sum) in
    let pf : c / 256 % 2 ≡ flag = omega (arith, sum) in
    (omega (arith, sum), classify_i_extended frame c (omega (arith, sum)) ∙ rw (nr, sent, pf) refl)

s_kinds : (kind : ℕ) → is_s_kind kind ≡ true → (kind % 16 ≡ kind) × (kind % 4 ≡ 1)
s_kinds kind h = (ground (arith, h), ground (arith, h))

-- The control field of an RR, RNR, REJ or SREJ frame in SABM mode is read as that kind with the
-- poll or final bit, which is 0 or 1; its N(R) is V(R) modulo 8.
pub classify-control_s :
    (frame : Frame) (vr kind flag : ℕ)
    → is_s_kind kind ≡ true
    → flag < 2
    → classify frame (control_s sabm vr kind flag) normal ≡ ok (s_frame frame kind (vr % 8) flag)
classify-control_s frame vr kind flag known h =
    let c = control_s sabm vr kind flag in
    let sum = s_sum vr kind flag h in
    let facts = s_kinds kind known in
    let same : c % 16 ≡ kind = omega (arith, sum, facts.0) in
    let nr : c / 32 % 8 ≡ vr % 8 = omega (arith, sum) in
    let pf : c / 16 % 2 ≡ flag = omega (arith, sum) in
    classify_s frame c (omega (arith, sum, facts.1)) (rw same known) ∙ rw (same, nr, pf) refl
