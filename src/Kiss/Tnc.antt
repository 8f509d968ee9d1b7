-- ===== src/Kiss/Tnc.antt =====
-- The KISS receiver: the state machine of tnc.c (patty_kiss_tnc_fill, _drain, _pending, _flush,
-- _recv and tnc_drop).
pub mod Frames
pub mod Recv
pub mod Fends
mod Tests
use patty.Prelude.{
  Bool, List, Option, [], false, get_or, if◌then◌else◌, length, ltb, none, set, some, suc, true,
  zero, ℕ, ◌&&◌, ◌+◌, ◌-◌, ◌==◌, ◌>>=◌, ◌^◌, ◌||◌, ◌∷◌,
}
use patty.Prelude.Int.{negsuc, pos, sub_ℕ, ℤ}
use patty.Kiss.Command
use patty.Kiss.{command_of, fend, fesc, port_of, tfend, tfesc}

-- `enum state`
pub data State : Type 0 where
  idle frame_command frame_body frame_escape : State

-- `struct _patty_kiss_tnc`, less its terminal settings. `buf` holds what the last `read` gave;
-- `dest` is the array that the caller of the receiver passes, and keeps passing, as `buf`, of
-- length `len`.
pub record Tnc : Type 0 where
  pub state : State
  pub command : ℕ
  pub port : ℕ
  pub buf : List ℕ
  pub readlen : ℕ
  pub offset_i : ℕ
  pub offset_o : ℕ
  pub dropped : ℕ
  pub dest : List ℕ

-- The fields as patty_kiss_tnc_new leaves them.
pub fresh : List ℕ → List ℕ → Tnc
fresh buf dest = record {
  state = idle;
  command = Command.reset;
  port = 0;
  buf = buf;
  readlen = 0;
  offset_i = 0;
  offset_o = 0;
  dropped = 0;
  dest = dest;
}

-- `tnc_drop`
tnc_drop : Tnc → Tnc
tnc_drop t = record t {
  state = idle;
  command = Command.reset;
  port = 0;
  offset_i = 0;
  offset_o = 0;
  readlen = 0;
  dropped = t.dropped + 1;
}

-- How one round of the loop of patty_kiss_tnc_drain ends: with another round, at `done`, or at
-- `error_io`.
pub data Turn : Type 0 where
  again done error_io : Turn

-- The commands that the inner switch accepts.
abbrev is_command : ℕ → Bool
is_command c =
    c == Command.payload
    || c == Command.txdelay
    || c == Command.persistence
    || c == Command.slot_time
    || c == Command.tx_tail
    || c == Command.full_duplex
    || c == Command.hw_set
    || c == Command.reset

-- `((uint8_t *)buf)[tnc->offset_o++] = c`
abbrev store : Tnc → ℕ → Tnc
store t c = record t { dest = set t.dest t.offset_o c; offset_o = t.offset_o + 1 }

receive_command : Tnc → ℕ → Turn × Tnc
receive_command t c =
    if command_of c == fend
    then (again, t)
    else if is_command (command_of c)
    then (again, record t { state = frame_body; command = command_of c; port = port_of c })
    else (error_io, t)

receive_body : Tnc → ℕ → Turn × Tnc
receive_body t c =
    if c == fesc
    then (again, record t { state = frame_escape })
    else if c == fend
    then (done, record t { state = frame_command })
    else if t.command == Command.payload
    then (again, store t c)
    else (again, t)

receive_escape : Tnc → ℕ → Turn × Tnc
receive_escape t c =
    if c == tfend
    then (again, record (store t fend) { state = frame_body })
    else if c == tfesc
    then (again, record (store t fesc) { state = frame_body })
    else (error_io, t)

-- The outer switch.
receive : State → Tnc → ℕ → Turn × Tnc
unfolding receive_command receive_body receive_escape
receive idle t c = (again, if c == fend then record t { state = frame_command } else t)
receive frame_command t c = receive_command t c
receive frame_body t c = receive_body t c
receive frame_escape t c = receive_escape t c

-- One round: the drop of an overlong frame, then the next byte of the read buffer.
pub round : ℕ → Tnc → Turn × Tnc
unfolding receive tnc_drop
round len t =
    let t₁ = if t.offset_o == len then tnc_drop t else t in
    let c = get_or t₁.buf t₁.offset_i 0 in
    let t₂ = record t₁ { offset_i = t₁.offset_i + 1 } in receive t₂.state t₂ c

-- The loop on fuel; `none` means that the fuel ran out.
pub drain_loop : ℕ → ℕ → Tnc → Option (Bool × Tnc)
drain_loop zero len t = none
drain_loop (suc fuel) len t =
    let next = round len t in
    let rest = drain_loop fuel len next.1 in
    if ltb t.offset_i t.readlen
    then elim next.0 [ again ↦ rest | done ↦ some (true, next.1) | error_io ↦ some (false, next.1) ]
    else some (true, t)

-- patty_kiss_tnc_drain: the value returned, -1 at `error_io`, and the state left behind. A round
-- takes one byte more of the read buffer, or drops what is left, so `readlen` rounds and a last
-- test are enough.
pub drain : Tnc → ℕ → Option (ℤ × Tnc)
unfolding drain_loop
drain t len = do
  (fine, t') ← drain_loop (t.readlen + 1) len t
  some (if fine then sub_ℕ t'.offset_i t.offset_i else negsuc 0, t')

abbrev is_frame_command : State → Bool
is_frame_command frame_command = true
is_frame_command _ = false

-- patty_kiss_tnc_pending
pub pending : Tnc → Bool
pending t =
    is_frame_command t.state && t.command == Command.payload && t.port == 0 && ltb 0 t.offset_o

-- patty_kiss_tnc_flush: the length of the frame that is now at the start of `dest`.
pub flush : Tnc → ℕ × Tnc
flush t = (t.offset_o, record t { state = idle; command = Command.reset; offset_o = 0 })

-- The calls of `read` that are still to come: the bytes that each gives, or its failure. When there
-- are none left, `read` returns 0.
abbrev pub Input : Type 0
Input = List (Option (List ℕ))

-- patty_kiss_tnc_fill. `readlen` is a size_t, so the test for a negative value never holds: a
-- failed read leaves SIZE_MAX there, and its conversion to ssize_t returns -1.
pub fill : Tnc → Input → ℤ × Tnc × Input
fill t [] = (pos 0, record t { readlen = 0; offset_i = 0 }, [])
fill t (none ∷ input) = (negsuc 0, record t { readlen = 2 ^ 64 - 1; offset_i = 0 }, input)
fill t (some bytes ∷ input) =
    (pos (length bytes), record t { buf = bytes; readlen = length bytes; offset_i = 0 }, input)

-- patty_kiss_tnc_recv on fuel: the value returned, and what is left. `none` means that the fuel of
-- this loop or of the drain ran out.
pub recv_loop : ℕ → Tnc → ℕ → Input → Option (ℤ × Tnc × Input)
unfolding pending flush
recv_loop zero t len input = none
recv_loop (suc fuel) t len input = elim (pending t) [
  | true ↦ some (pos (flush t).0, (flush t).1, input)
  | false ↦ drain t len >>= λ d. elim d.0 [
    | negsuc n ↦ some (negsuc 0, d.1, input)
    | pos drained ↦
        let filled = fill d.1 input in
        let onward = recv_loop fuel d.1 len input in
        if drained == 0
        then elim filled.0 [
          | negsuc n ↦ some (negsuc 0, filled.1, filled.2)
          | pos zero ↦ some (pos 0, filled.1, filled.2)
          | pos (suc n) ↦ recv_loop fuel filled.1 len filled.2
        ]
        else onward
  ]
]
