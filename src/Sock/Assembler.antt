-- ===== src/Sock/Assembler.antt =====
-- The reassembler of segmented frames: patty_ax25_sock_assembler_init, _pending, _stop, _save and
-- _read of sock.c.
pub mod Reassembly
use patty.Prelude.{
  Bool, List, Option, [], drop, false, if◌then◌else◌, leb, length, ltb, none, some, true, ℕ, ◌*◌,
  ◌++◌, ◌+◌, ◌-◌, ◌==◌,
}
use patty.Result.{Result, einval, eio, eoverflow, err, fault, ok}
use patty.Frame.{sub_size}

-- `patty_ax25_sock_assembler` with the buffer behind it: `size` is what it was allocated with, and
-- `buf` holds what has been saved, so that `offset` is its length.
pub record Assembler : Type 0 where
  pub total : ℕ
  pub remaining : ℕ
  pub size : ℕ
  pub buf : List ℕ

-- `sock->assembler == NULL || sock->assembler->total < total`
pub needs_new : Option Assembler → ℕ → Bool
needs_new none total = true
needs_new (some asm) total = ltb asm.total total

-- patty_ax25_sock_assembler_init, where `maxlen` is `n_maxlen_rx`
pub assembler_init : ℕ → Option Assembler → ℕ → Result (Option Assembler)
unfolding needs_new
assembler_init maxlen asm total =
    if ltb total 2
    then err einval
    else ok (
        if needs_new asm total
        then some (record { total = total; remaining = total; size = total * maxlen; buf = [] })
        else asm)

-- patty_ax25_sock_assembler_pending
pub assembler_pending : Option Assembler → ℕ → Bool
assembler_pending none remaining = false
assembler_pending (some asm) remaining =
    if asm.total == 0 then false else remaining + 1 == asm.remaining

-- patty_ax25_sock_assembler_stop
pub assembler_stop : Option Assembler → Option Assembler
assembler_stop none = none
assembler_stop (some asm) = some (record asm { remaining = 0; total = 0 })

-- patty_ax25_sock_assembler_save
pub assembler_save : ℕ → Option Assembler → List ℕ → Result (Option Assembler)
assembler_save maxlen none bytes = fault
assembler_save maxlen (some asm) bytes =
    if ltb (sub_size maxlen 1) (length bytes)
    then err eoverflow
    else if asm.remaining == 0
    then err eio
    else if leb (length asm.buf + length bytes) asm.size
    then ok (some (record asm { buf = asm.buf ++ bytes; remaining = asm.remaining - 1 }))
    else fault

-- patty_ax25_sock_assembler_read: the bytes behind the protocol byte.
pub assembler_read : Option Assembler → Result (Option (List ℕ))
assembler_read none = ok none
assembler_read (some asm) = if length asm.buf == 0 then fault else ok (some (drop 1 asm.buf))
