-- ===== src/Frame/Kind.antt =====
-- `enum patty_ax25_frame_type` of frame.h, by its values.
use patty.Prelude.{ℕ}

abbrev pub i : ℕ
i = 0x00

abbrev pub rr : ℕ
rr = 0x01

abbrev pub rnr : ℕ
rnr = 0x05

abbrev pub rej : ℕ
rej = 0x09

abbrev pub srej : ℕ
srej = 0x0d

abbrev pub sabm : ℕ
sabm = 0x2f

abbrev pub sabme : ℕ
sabme = 0x6f

abbrev pub disc : ℕ
disc = 0x43

abbrev pub dm : ℕ
dm = 0x0f

abbrev pub ua : ℕ
ua = 0x63

abbrev pub frmr : ℕ
frmr = 0x87

abbrev pub ui : ℕ
ui = 0x03

abbrev pub xid : ℕ
xid = 0xaf

abbrev pub test : ℕ
test = 0xe3

-- What a frame of no known type has.
abbrev pub unknown : ℕ
unknown = 0xff
