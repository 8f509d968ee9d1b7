-- ===== src/Sock/Params/Negotiation.antt =====
-- What patty_ax25_sock_params_negotiate of sock.c leaves of the socket's parameters.
use patty.Prelude.{
  Bool, Bool-cases, arith, bit_and, false, if◌then◌else◌, inl, inr, ltb, refl, true, ℕ, ◌%◌, ◌&&◌,
  ◌/◌, ◌^◌, ◌≡◌, ◌≤◌,
}
use patty.Prelude.Bits.{and_0x01, and_0x03, and_step}
use patty.Result.{Result, err, fault, ok}
use patty.Sock.{Sock}
use patty.Sock.Params.{
  Params, apply_hdlc, apply_limits, check_classes, has, negotiate, negotiate_checked, negotiated,
  param_ack, param_classes, param_hdlc, param_info_rx, param_retry, param_window_rx, restrict_hdlc,
}

-- The sizes do not grow, and the times and the tries do not shrink.
pub OneWay : Sock → Sock → Type 0
OneWay sock after =
    (after.n_maxlen_tx ≤ sock.n_maxlen_tx)
    × (after.n_window_tx ≤ sock.n_window_tx)
    × (sock.n_ack ≤ after.n_ack)
    × (sock.n_retry ≤ after.n_retry)

lower : (b : Bool) (new old : ℕ) → (if b && ltb new old then new else old) ≤ old
lower true new old = ground arith
lower false new old = omega arith

higher : (b : Bool) (new old : ℕ) → old ≤ (if b && ltb old new then new else old)
higher true new old = ground arith
higher false new old = omega arith

apply_limits-OneWay : (sock : Sock) (params : Params) → OneWay sock (apply_limits sock params)
unfolding apply_limits OneWay
apply_limits-OneWay sock params = (
  lower (has params.flags param_info_rx) (params.info_rx / 2 ^ 3) sock.n_maxlen_tx,
  lower (has params.flags param_window_rx) params.window_rx sock.n_window_tx,
  higher (has params.flags param_ack) params.ack sock.n_ack,
  higher (has params.flags param_retry) params.retry sock.n_retry,
)

unchanged-OneWay : (sock : Sock) → OneWay sock sock
unfolding OneWay
unchanged-OneWay sock = (omega arith, omega arith, omega arith, omega arith)

restrict_hdlc-OneWay : (sock : Sock) (params : Params) → OneWay sock (restrict_hdlc sock params)
unfolding OneWay restrict_hdlc
restrict_hdlc-OneWay sock params = unchanged-OneWay sock

negotiated-OneWay :
    (sock next : Sock) (answer : Result Params)
    → OneWay sock next
    → OneWay next next
    → OneWay sock (negotiated (next, answer)).0
unfolding negotiated OneWay
negotiated-OneWay sock next (ok params) h g =
    let limits = apply_limits-OneWay next params in
    (
      omega (arith, h.0, limits.0),
      omega (arith, h.1, limits.1),
      omega (arith, h.2, limits.2),
      omega (arith, h.3, limits.3),
    )
negotiated-OneWay sock next (err e) h g = h
negotiated-OneWay sock next fault h g = h

apply_hdlc-OneWay : (sock : Sock) (params : Params) → OneWay sock (apply_hdlc sock params).0
unfolding apply_hdlc
apply_hdlc-OneWay sock params = elim (Bool-cases (has params.flags param_hdlc)) [
  | inl e ↦ rw e (restrict_hdlc-OneWay sock params)
  | inr e ↦ rw e (unchanged-OneWay sock)
]

checked-OneWay :
    (answer : Result (Unit {0})) (sock : Sock) (params : Params)
    → OneWay sock (negotiate_checked answer sock params).0
unfolding negotiate_checked
checked-OneWay (ok x) sock params =
    negotiated-OneWay sock (apply_hdlc sock params).0 (apply_hdlc sock params).1
      (apply_hdlc-OneWay sock params) (unchanged-OneWay (apply_hdlc sock params).0)
checked-OneWay (err e) sock params = unchanged-OneWay sock
checked-OneWay fault sock params = unchanged-OneWay sock

-- Whatever the peer's parameters are and whether or not the negotiation fails, the largest frame
-- and the window for sending do not grow, and the acknowledgement time and the number of tries do
-- not shrink.
pub negotiate-OneWay : (sock : Sock) (params : Params) → OneWay sock (negotiate sock params).0
unfolding negotiate
negotiate-OneWay sock params = checked-OneWay (check_classes params) sock params

-- The parameters that patty_ax25_frame_decode_xid finds: it sets `1 << type`, and each type of a
-- parameter is at least 2.
low_bits :
    (flags : ℕ) → flags % 4 ≡ 0 → (has flags param_classes ≡ false) × (has flags param_hdlc ≡ false)
low_bits flags h =
    let two : bit_and flags 2 ≡ 0 = omega (arith, and_step flags 2, and_0x01 (flags / 2)) in
    let three : bit_and flags 3 ≡ 0 = omega (arith, and_0x03 flags) in (rw two refl, rw three refl)

-- Where the flags have neither of their two lowest bits set, as those that XID decoding makes out
-- of `1 << type`, no class and no HDLC option is looked at: the negotiation succeeds with any
-- parameters, and only the limits change.
pub negotiate_unchecked :
    (sock : Sock) (params : Params)
    → params.flags % 4 ≡ 0
    → negotiate sock params ≡ (apply_limits sock params, ok params)
unfolding negotiate check_classes negotiate_checked negotiated apply_hdlc
negotiate_unchecked sock params h = let bits = low_bits params.flags h in rw (bits.0, bits.1) refl
