-- ===== src/Sock/Params.antt =====
-- The parameters of a socket: patty_ax25_sock_params_upgrade, _max and _negotiate of sock.c.
pub mod Negotiation
use patty.Prelude.{
  Bool, bit_and, bit_or, false, if◌then◌else◌, ltb, not, true, ℕ, ◌&&◌, ◌-◌, ◌/◌, ◌==◌, ◌^◌,
}
use patty.Result.{Result, einval, enotsup, err, fault, ok}
use patty.Timer
use patty.Frame.{Version, v2_2}
use patty.Sock.{
  Sock, classes_abm, classes_full_duplex, classes_half_duplex, default_hdlc_2_2, hdlc_modulo_128,
  hdlc_modulo_8, hdlc_rej, hdlc_srej, hdlc_sync_tx, hdlc_test, hdlc_xaddr, init, max_hdlc_2_2,
}

-- `enum patty_ax25_param_type` of ax25.h.
abbrev pub param_classes : ℕ
param_classes = 2

abbrev pub param_hdlc : ℕ
param_hdlc = 3

abbrev pub param_info_tx : ℕ
param_info_tx = 5

abbrev pub param_info_rx : ℕ
param_info_rx = 6

abbrev pub param_window_tx : ℕ
param_window_tx = 7

abbrev pub param_window_rx : ℕ
param_window_rx = 8

abbrev pub param_ack : ℕ
param_ack = 9

abbrev pub param_retry : ℕ
param_retry = 10

-- `patty_ax25_params`
pub record Params : Type 0 where
  pub flags : ℕ
  pub classes : ℕ
  pub hdlc : ℕ
  pub info_tx : ℕ
  pub info_rx : ℕ
  pub window_tx : ℕ
  pub window_rx : ℕ
  pub ack : ℕ
  pub retry : ℕ

is_v2_2 : Version → Bool
is_v2_2 v2_2 = true
is_v2_2 _ = false

-- patty_ax25_sock_params_upgrade
pub upgrade : Sock → Sock
unfolding is_v2_2
upgrade sock = if is_v2_2 sock.version then sock else record sock {
  version = v2_2;
  flags_hdlc = default_hdlc_2_2;
  n_maxlen_tx = 255;
  n_maxlen_rx = 255;
  n_window_tx = 32;
  n_window_rx = 32;
}

-- patty_ax25_sock_params_max
pub max : Sock → Sock
max sock = record sock {
  version = v2_2;
  flags_hdlc = max_hdlc_2_2;
  n_maxlen_tx = 1536;
  n_maxlen_rx = 1536;
  n_window_tx = 127;
  n_window_rx = 127;
}

-- `flags & bits`, as a condition.
abbrev pub has : ℕ → ℕ → Bool
has flags bits = not (bit_and flags bits == 0)

-- `flags & ~bits` on uint32_t
abbrev pub without : ℕ → ℕ → ℕ
without flags bits = bit_and flags (2 ^ 32 - 1 - bits)

-- The test of the classes; `ENOTSUP` where it fails.
pub check_classes : Params → Result (Unit {0})
check_classes params =
    if has params.flags param_classes
    then (if not (has params.classes classes_abm)
        then err enotsup
        else if not (has params.classes classes_half_duplex)
        then err enotsup
        else if has params.classes classes_full_duplex
        then err enotsup
        else ok tt)
    else ok tt

-- The tests of the HDLC options, with the parameters as they leave them.
pub check_hdlc : Params → Result Params
check_hdlc params =
    if not (has params.hdlc hdlc_xaddr)
    then err einval
    else if not (has params.hdlc hdlc_modulo_128)
    then err einval
    else (let moduli =
          if has params.hdlc hdlc_modulo_8
          then bit_or (without params.hdlc hdlc_modulo_8) hdlc_modulo_128
          else params.hdlc in
        let tested = if not (has moduli hdlc_test) then without moduli hdlc_test else moduli in
        if not (has tested hdlc_sync_tx) then err einval else ok (record params { hdlc = tested }))

-- The HDLC options that the peer lacks are taken off the socket's.
pub restrict_hdlc : Sock → Params → Sock
restrict_hdlc sock params =
    let rej =
      if not (has params.hdlc hdlc_rej)
      then without sock.flags_hdlc hdlc_rej
      else sock.flags_hdlc in
    let srej = if not (has params.hdlc hdlc_srej) then without rej hdlc_srej else rej in
    record sock { flags_hdlc = srej }

pub apply_hdlc : Sock → Params → Sock × Result Params
unfolding check_hdlc restrict_hdlc
apply_hdlc sock params =
    if has params.flags param_hdlc
    then (restrict_hdlc sock params, check_hdlc params)
    else (sock, ok params)

-- The sizes, the window, the acknowledgement timer and the retries: each only moves one way.
pub apply_limits : Sock → Params → Sock
apply_limits sock params =
    let mtu =
      if has params.flags param_info_rx && ltb (params.info_rx / 2 ^ 3) sock.n_maxlen_tx
      then params.info_rx / 2 ^ 3
      else sock.n_maxlen_tx in
    let window =
      if has params.flags param_window_rx && ltb params.window_rx sock.n_window_tx
      then params.window_rx
      else sock.n_window_tx in
    let slower = has params.flags param_ack && ltb sock.n_ack params.ack in
    let retry =
      if has params.flags param_retry && ltb sock.n_retry params.retry
      then params.retry
      else sock.n_retry in
    record sock {
      n_maxlen_tx = mtu;
      n_window_tx = window;
      n_ack = if slower then params.ack else sock.n_ack;
      timer_t1 = if slower then Timer.init sock.timer_t1 params.ack else sock.timer_t1;
      n_retry = retry;
    }

-- The rest of the negotiation behind the HDLC options.
pub negotiated : Sock × Result Params → Sock × Result Params
unfolding apply_limits
negotiated (sock, ok params) = (apply_limits sock params, ok params)
negotiated (sock, err e) = (sock, err e)
negotiated (sock, fault) = (sock, fault)

pub negotiate_checked : Result (Unit {0}) → Sock → Params → Sock × Result Params
unfolding negotiated apply_hdlc
negotiate_checked (ok x) sock params = negotiated (apply_hdlc sock params)
negotiate_checked (err e) sock params = (sock, err e)
negotiate_checked fault sock params = (sock, fault)

-- patty_ax25_sock_params_negotiate: the socket, and the parameters or the error.
pub negotiate : Sock → Params → Sock × Result Params
unfolding check_classes negotiate_checked
negotiate sock params = negotiate_checked (check_classes params) sock params
