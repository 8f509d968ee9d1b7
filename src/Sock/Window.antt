-- ===== src/Sock/Window.antt =====
-- The window of a socket: the transmit slots and the sequence numbers V(S), V(R) and V(A) of
-- sock.c. `none` is an access outside the slots.
pub mod Pending
pub mod Ring
pub mod Acks
pub mod Advance
pub mod Invariant
pub mod Local
pub mod Overflow
pub mod Sending
use patty.Prelude.{
  Bool, List, Option, [], bit_and, false, get_elem?, if◌then◌else◌, leb, length, ltb, none, not,
  set, some, suc, true, zero, ℕ, ◌%◌, ◌&&◌, ◌+◌, ◌-◌, ◌==◌, ◌>>=◌, ◌∷◌,
}
use patty.Prelude.Int.{pos, sub_ℕ, ℤ}
use patty.Sock.{Mode, Slot, Sock, sabm, slot_count}

-- `tx_seq`
abbrev pub tx_seq : Sock → ℕ → ℕ
tx_seq sock seq = seq % slot_count sock.mode

-- `tx_slot`
abbrev pub tx_slot : Sock → ℕ → Option Slot
tx_slot sock seq = get_elem? sock.tx_slots (tx_seq sock seq)

-- `slot->len > 0 && !slot->ack`
unfoldable pub is_pending : Slot → Bool
is_pending slot = ltb 0 slot.len && not slot.ack

-- `tx_slot_save` of the bytes `buf`; they have to fit the slot.
unfoldable pub tx_slot_save : Sock → List ℕ → Option Sock
tx_slot_save sock buf =
    if leb (length buf) sock.n_maxlen_tx
    then (tx_slot sock sock.vs >>= λ slot. some (record sock {
      tx_slots =
          set sock.tx_slots (tx_seq sock sock.vs)
            (record slot { len = length buf; ack = false; payload = buf });
    }))
    else none

-- `(seq + 1) & 0x07`, or `& 0x7f` in the other modes.
abbrev pub next_seq : Mode → ℕ → ℕ
next_seq sabm seq = bit_and (seq + 1) 0x07
next_seq _ seq = bit_and (seq + 1) 0x7f

-- patty_ax25_sock_vs_incr
unfoldable pub vs_incr : Sock → Sock
vs_incr sock = record sock { vs = next_seq sock.mode sock.vs }

-- patty_ax25_sock_vr_incr
unfoldable pub vr_incr : Sock → Sock
vr_incr sock = record sock { vr = next_seq sock.mode sock.vr }

-- patty_ax25_sock_flow_left
unfoldable pub flow_left : Sock → ℤ
flow_left sock =
    if sock.n_window_tx == 1
    then pos 1
    else sub_ℕ sock.vs (tx_seq sock (sock.va + sock.n_window_tx))

-- One round of the loop of patty_ax25_sock_ack on the slot of `i`.
pub ack_slot : Sock → ℕ → ℕ → Slot → Sock × ℕ
ack_slot sock i ret slot =
    if is_pending slot
    then (
      record sock {
        tx_slots = set sock.tx_slots (tx_seq sock i) (record slot { ack = true });
        va = tx_seq sock (i + 1);
      },
      ret + 1,
    )
    else (sock, ret)

-- The loop, with `rounds` rounds to go.
pub ack_loop : ℕ → ℕ → Sock × ℕ → Option (Sock × ℕ)
unfolding ack_slot is_pending
ack_loop zero i (sock, ret) = some (sock, ret)
ack_loop (suc rounds) i (sock, ret) =
    tx_slot sock i >>= λ slot. ack_loop rounds (suc i) (ack_slot sock i ret slot)

-- patty_ax25_sock_ack: the socket, and how many slots were acknowledged.
pub sock_ack : Sock → ℕ → Option (Sock × ℕ)
unfolding ack_loop
sock_ack sock nr =
    if sock.va == nr
    then some (sock, 1)
    else (let last = if ltb nr sock.va then nr + slot_count sock.mode else nr in
        ack_loop (last - sock.va) sock.va (sock, 0))

-- The loop of patty_ax25_sock_ack_pending.
pub pending_loop : ℕ → List Slot → ℕ → Option ℕ
pending_loop zero slots ret = some ret
pending_loop (suc n) [] ret = none
pending_loop (suc n) (slot ∷ slots) ret =
    pending_loop n slots (if is_pending slot then ret + 1 else ret)

-- patty_ax25_sock_ack_pending
pub ack_pending : Sock → Option ℕ
unfolding pending_loop is_pending
ack_pending sock = pending_loop (slot_count sock.mode) sock.tx_slots 0
