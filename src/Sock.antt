-- ===== src/Sock.antt =====
-- Sockets: `patty_ax25_sock` of sock.h and its life in sock.c (allocation of the transmit slots,
-- initialisation, reset and the setters). Its other operations are in the children.
pub mod Params
pub mod Window
pub mod Output
pub mod Assembler
mod Tests
use patty.Prelude.{
  Bool, List, Option, [], false, none, replicate, some, suc, true, zero, ℕ, ◌*◌, ◌+◌, ◌/◌, ◌>>=◌,
  ◌^◌, ◌∷◌,
}
use patty.Timer
use patty.Timer.{Timer, clear, start}
use patty.Frame.{Addr, Version}

-- `enum patty_ax25_sock_type`
pub data SockType : Type 0 where
  stream dgram raw : SockType

-- `enum patty_ax25_sock_state`
pub data State : Type 0 where
  closed listening pending_accept pending_connect pending_disconnect established promisc : State

-- `enum patty_ax25_sock_mode`
pub data Mode : Type 0 where
  dm sabm sabme : Mode

-- `enum patty_ax25_sock_flow`
pub data Flow : Type 0 where
  wait ready : Flow

-- `struct slot` with the bytes behind it.
pub record Slot : Type 0 where
  pub len : ℕ
  pub ack : Bool
  pub payload : List ℕ

-- `patty_ax25_sock`. `tx_slots` has the slots of the last allocation; `has_iface` says that `iface`
-- is not null.
pub record Sock : Type 0 where
  pub proto : ℕ
  pub kind : SockType
  pub version : Version
  pub state : State
  pub mode : Mode
  pub flow : Flow
  pub has_iface : Bool
  pub local : Addr
  pub remote : Addr
  pub repeaters : List Addr
  pub hops : ℕ
  pub tx_buf : List ℕ
  pub tx_slots : List Slot
  pub flags_classes : ℕ
  pub flags_hdlc : ℕ
  pub n_maxlen_tx : ℕ
  pub n_maxlen_rx : ℕ
  pub n_window_tx : ℕ
  pub n_window_rx : ℕ
  pub n_ack : ℕ
  pub n_retry : ℕ
  pub timer_t1 : Timer
  pub timer_t2 : Timer
  pub timer_t3 : Timer
  pub vs : ℕ
  pub vr : ℕ
  pub va : ℕ
  pub retries : ℕ
  pub rx_pending : ℕ

-- The bits of the XID parameters, `enum patty_ax25_param_classes` and `enum patty_ax25_param_hdlc`.
abbrev pub classes_abm : ℕ
classes_abm = 2 ^ 0 * 2 ^ 8

abbrev pub classes_half_duplex : ℕ
classes_half_duplex = 2 ^ 5 * 2 ^ 8

abbrev pub classes_full_duplex : ℕ
classes_full_duplex = 2 ^ 6 * 2 ^ 8

abbrev pub hdlc_rej : ℕ
hdlc_rej = 2 ^ 1 * 2 ^ 16

abbrev pub hdlc_srej : ℕ
hdlc_srej = 2 ^ 2 * 2 ^ 16

abbrev pub hdlc_xaddr : ℕ
hdlc_xaddr = 2 ^ 7 * 2 ^ 16

abbrev pub hdlc_modulo_8 : ℕ
hdlc_modulo_8 = 2 ^ 10

abbrev pub hdlc_modulo_128 : ℕ
hdlc_modulo_128 = 2 ^ 11

abbrev pub hdlc_test : ℕ
hdlc_test = 2 ^ 13

abbrev pub hdlc_fcs_16 : ℕ
hdlc_fcs_16 = 2 ^ 15

abbrev pub hdlc_sync_tx : ℕ
hdlc_sync_tx = 2 ^ 17 / 2 ^ 16

abbrev pub hdlc_srej_multi : ℕ
hdlc_srej_multi = 2 ^ 21 / 2 ^ 16

-- The defaults of sock.h. The bits are distinct, so that `|` adds them.
abbrev pub default_i_len : ℕ
default_i_len = 127

abbrev pub default_window : ℕ
default_window = 4

abbrev pub default_retry : ℕ
default_retry = 10

abbrev pub default_ack : ℕ
default_ack = 3000

abbrev pub default_delay : ℕ
default_delay = 3000

abbrev pub default_keepalive : ℕ
default_keepalive = 1000 * 30

abbrev pub default_hdlc_2_2 : ℕ
default_hdlc_2_2 =
    hdlc_rej + hdlc_srej + hdlc_xaddr + hdlc_modulo_128 + hdlc_test + hdlc_fcs_16 + hdlc_sync_tx

abbrev pub max_hdlc_2_2 : ℕ
max_hdlc_2_2 = default_hdlc_2_2 + hdlc_srej_multi

abbrev pub is_sabme : Mode → Bool
is_sabme sabme = true
is_sabme _ = false

-- `tx_slots`: as many slots as there are sequence numbers.
abbrev pub is_dm : Mode → Bool
is_dm dm = true
is_dm _ = false

abbrev pub slot_count : Mode → ℕ
slot_count sabme = 128
slot_count _ = 8

abbrev pub empty_slot : Slot
empty_slot = record { len = 0; ack = false; payload = [] }

-- `init_bufs`, where memory is at hand: as many empty slots as the mode has. The transmit buffer
-- has room for a frame.
unfoldable pub init_bufs : Sock → Sock
init_bufs sock = record sock {
  tx_slots = replicate (slot_count sock.mode) empty_slot;
  tx_buf = replicate (73 + sock.n_maxlen_tx) 0;
}

-- patty_ax25_sock_init
pub init : Sock → Sock
init sock = record sock {
  state = closed;
  mode = dm;
  flow = wait;
  n_maxlen_tx = default_i_len;
  n_maxlen_rx = default_i_len;
  n_window_tx = default_window;
  n_window_rx = default_window;
  n_ack = default_ack;
  n_retry = default_retry;
  retries = default_retry;
  rx_pending = 0;
  timer_t1 = Timer.init sock.timer_t1 default_ack;
  timer_t2 = Timer.init sock.timer_t2 default_delay;
  timer_t3 = Timer.init sock.timer_t3 default_keepalive;
}

-- The loop of patty_ax25_sock_reset over the slots that the mode has; `none` is a write behind the
-- slots that were allocated.
pub clear_slots : ℕ → List Slot → Option (List Slot)
clear_slots zero slots = some slots
clear_slots (suc n) [] = none
clear_slots (suc n) (slot ∷ slots) =
    clear_slots n slots >>= λ rest. some (record slot { len = 0; ack = false } ∷ rest)

-- The other assignments of patty_ax25_sock_reset.
pub restarted : Sock → List Slot → Sock
restarted sock slots = record sock {
  flow = ready;
  vs = 0;
  vr = 0;
  va = 0;
  retries = sock.n_retry;
  rx_pending = 0;
  tx_slots = slots;
  timer_t1 = Timer.start sock.timer_t1;
  timer_t2 = Timer.clear sock.timer_t2;
  timer_t3 = Timer.clear sock.timer_t3;
}

-- patty_ax25_sock_reset
pub reset : Sock → Option Sock
unfolding clear_slots restarted
reset sock =
    clear_slots (slot_count sock.mode) sock.tx_slots >>= λ slots. some (restarted sock slots)

-- The setters of one parameter.
pub mtu_set : Sock → ℕ → Sock
mtu_set sock mtu = record sock { n_maxlen_tx = mtu }

pub ack_set : Sock → ℕ → Sock
ack_set sock ack = record sock { n_ack = ack }

pub window_set : Sock → ℕ → Sock
window_set sock window = record sock { n_window_tx = window }

pub retry_set : Sock → ℕ → Sock
retry_set sock retry = record sock { n_retry = retry }
