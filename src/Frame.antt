-- ===== src/Frame.antt =====
-- Frames: the types of ax25.h and frame.h that frame.c works on.
pub mod Kind
pub mod Address
pub mod Control
pub mod Xid
use patty.Prelude.{Bool, List, Option, bit_and, leb, ℕ, ◌%◌, ◌&&◌, ◌+◌, ◌-◌, ◌/◌, ◌==◌, ◌^◌}

-- `patty_ax25_addr`: six callsign bytes, each shifted left by one, and the SSID byte.
pub record Addr : Type 0 where
  pub callsign : List ℕ
  pub ssid : ℕ

abbrev pub callstrlen : ℕ
callstrlen = 6

-- `sizeof(patty_ax25_addr)`
abbrev pub addr_size : ℕ
addr_size = 7

abbrev pub max_hops : ℕ
max_hops = 8

-- `enum patty_ax25_version`
pub data Version : Type 0 where
  old v2_0 v2_2 : Version

-- `enum patty_ax25_frame_format`
pub data Format : Type 0 where
  normal extended : Format

-- `enum patty_ax25_frame_cr`
pub data Cr : Type 0 where
  old command response : Cr

-- `patty_ax25_frame`. `repeaters` holds the entries that have been written, `info` what the pointer
-- sees up to the end of its array.
pub record Frame : Type 0 where
  pub dest : Addr
  pub src : Addr
  pub repeaters : List Addr
  pub hops : ℕ
  pub control : ℕ
  pub nr : ℕ
  pub ns : ℕ
  pub pf : ℕ
  pub cr : Cr
  pub kind : ℕ
  pub format : Format
  pub version : Version
  pub proto : ℕ
  pub info : Option (List ℕ)
  pub infolen : ℕ

-- The macros of ax25.h on a byte.
abbrev pub is_char_valid : ℕ → Bool
is_char_valid c = leb 0x20 c && leb c 0x7e

abbrev pub is_octet_last : ℕ → Bool
is_octet_last c = bit_and c 0x01 == 0x01

abbrev pub ssid_number : ℕ → ℕ
ssid_number c = bit_and c 0x1e / 2

abbrev pub ssid_c : ℕ → Bool
ssid_c c = bit_and c 0x80 == 0x80

-- The macros of frame.h on a control field.
abbrev pub is_control_i : ℕ → Bool
is_control_i c = bit_and c 0x1 == 0x00

abbrev pub is_control_s : ℕ → Bool
is_control_s c = bit_and c 0x03 == 0x01

abbrev pub is_control_u : ℕ → Bool
is_control_u c = bit_and c 0x03 == 0x03

abbrev pub is_control_ui : ℕ → Bool
is_control_ui c = bit_and c 0xef == 0x03

-- `a - b` on size_t
abbrev pub sub_size : ℕ → ℕ → ℕ
sub_size a b = (a + 2 ^ 64 - b) % 2 ^ 64
