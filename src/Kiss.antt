-- ===== src/Kiss.antt =====
-- KISS framing: kiss.h and the sender of kiss.c (patty_kiss_frame_send). The receiver is `Kiss.Tnc`.
pub mod Command
pub mod Send
pub mod Tnc
use patty.Prelude.{
  List, Option, [], bit_and, bit_or, drop, if◌then◌else◌, length, none, some, take, ℕ, ◌*◌, ◌++◌,
  ◌+◌, ◌-◌, ◌/◌, ◌==◌, ◌>>=◌, ◌^◌, ◌∷◌, ◌≡◌,
}
use Command

abbrev pub fend : ℕ
fend = 0xc0

abbrev pub fesc : ℕ
fesc = 0xdb

abbrev pub tfend : ℕ
tfend = 0xdc

abbrev pub tfesc : ℕ
tfesc = 0xdd

-- PATTY_KISS_COMMAND and PATTY_KISS_COMMAND_PORT
abbrev pub command_of : ℕ → ℕ
command_of c = bit_and c 0x0f

abbrev pub port_of : ℕ → ℕ
port_of c = bit_and c 0xf0 / 2 ^ 4

-- The file descriptor that a frame is written to. `write` is the system call: `none` is a negative
-- return, and a call that succeeds has taken all the bytes behind what the stream held.
pub record Fd : Type 1 where
  pub World : Type 0
  pub write : World → List ℕ → Option World
  pub stream : World → List ℕ
  pub write_appends :
      (w w' : World) (bytes : List ℕ) → write w bytes ≡ some w' → stream w' ≡ stream w ++ bytes

-- The bytes from index `start` up to `end`.
abbrev pub slice : List ℕ → ℕ → ℕ → List ℕ
slice buf start end = take (end - start) (drop start buf)

-- The switch of the loop: the escape that `c` needs.
pub escape_of : ℕ → Option (List ℕ)
escape_of c =
    if c == fend
    then some (fesc ∷ tfend ∷ [])
    else if c == fesc
    then some (fesc ∷ tfesc ∷ [])
    else none

pub start_byte : ℕ → ℕ → ℕ
start_byte command port = bit_or (bit_and port 0x0f * 2 ^ 4) (bit_and command 0x0f)

module _ (fd : Fd) where
  open fd use {World, write}

  pub write_byte : World → ℕ → Option World
  write_byte w c = write w (c ∷ [])

  pub write_start : World → ℕ → ℕ → Option World
  write_start w command port = write w (fend ∷ start_byte command port ∷ [])

  -- The loop over `buf`; `rest` is what stands from index `i` on. It ends with `start` and `end`.
  pub send_loop : World → List ℕ → List ℕ → ℕ → ℕ → ℕ → Option (World × ℕ × ℕ)
  send_loop w buf [] i start end = some (w, start, end)
  send_loop w buf (c ∷ rest) i start end = elim (escape_of c) [
    | some escape ↦ write w (slice buf start end) >>= λ w₁.
        write w₁ escape >>= λ w₂. send_loop w₂ buf rest (i + 1) (i + 1) (i + 1)
    | none ↦ send_loop w buf rest (i + 1) start (i + 1)
  ]

  pub write_rest : World → List ℕ → ℕ → ℕ → Option World
  write_rest w buf start end = if end - start == 0 then some w else write w (slice buf start end)

  -- `none` is the return value -1.
  pub frame_send : World → List ℕ → ℕ → Option (World × ℕ)
  frame_send w buf port = do
    w₁ ← write_start w Command.payload port
    (w₂, start, end) ← send_loop w₁ buf buf 0 0 0
    w₃ ← write_rest w₂ buf start end
    w₄ ← write_byte w₃ fend
    some (w₄, length buf)
