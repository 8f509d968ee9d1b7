-- ===== src/Kiss/Command.antt =====
-- `enum patty_kiss_command` of kiss.h, by its values.
use patty.Prelude.{ℕ}

abbrev pub payload : ℕ
payload = 0x00

abbrev pub txdelay : ℕ
txdelay = 0x01

abbrev pub persistence : ℕ
persistence = 0x02

abbrev pub slot_time : ℕ
slot_time = 0x03

abbrev pub tx_tail : ℕ
tx_tail = 0x04

abbrev pub full_duplex : ℕ
full_duplex = 0x05

abbrev pub hw_set : ℕ
hw_set = 0x06

abbrev pub reset : ℕ
reset = 0xff
