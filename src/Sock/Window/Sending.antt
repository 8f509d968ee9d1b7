-- ===== src/Sock/Window/Sending.antt =====
-- The steps of sending an I frame of sock.c on a socket in range.
use patty.Prelude.{
  Bool, List, Option, false, if◌then◌else◌, leb, length, length-set, none, set, some,
  some-injective, subst, true, ℕ, ◌+◌, ◌>>=◌, ◌∙◌, ◌≡◌,
}
use patty.Sock.{Slot, Sock}
use patty.Sock.Window.{tx_seq, tx_slot, tx_slot_save, vs_incr}
use patty.Sock.Window.Pending.{HasSlots, seq-below}
use patty.Sock.Window.Invariant.{InRange, next_seq-below}

pub vs_incr-InRange : (sock : Sock) → InRange sock → InRange (vs_incr sock)
unfolding InRange HasSlots vs_incr
vs_incr-InRange sock h = (h.0, h.1, next_seq-below sock.mode sock.vs h.0, h.3, h.4)

-- V(S) as patty_ax25_sock_resend_pending counts it.
pub resent-InRange :
    (sock : Sock) → InRange sock → InRange (record sock { vs = tx_seq sock (sock.vs + 1) })
unfolding InRange HasSlots
resent-InRange sock h = (h.0, h.1, seq-below sock (sock.vs + 1), h.3, h.4)

pub tx_slot_save-InRange :
    (sock next : Sock) (buf : List ℕ)
    → tx_slot_save sock buf ≡ some next
    → InRange sock
    → InRange next
unfolding tx_slot_save InRange HasSlots
tx_slot_save-InRange sock next buf e h = by_room (leb (length buf) sock.n_maxlen_tx) e
  where
    by_slot :
        (found : Option Slot)
        → (found >>= λ slot. some (record sock {
          tx_slots =
              set sock.tx_slots
                (tx_seq sock sock.vs)
                (record slot { len = length buf; ack = false; payload = buf });
        }))
          ≡ some next
        → InRange next
    by_slot none e = cc
    by_slot (some slot) e =
        let put = record slot { len = length buf; ack = false; payload = buf } in
        subst InRange (some-injective _ _ e)
          (h.0, length-set sock.tx_slots (tx_seq sock sock.vs) put ∙ h.1, h.2, h.3, h.4)

    by_room :
        (room : Bool)
        → (if room
            then (tx_slot sock sock.vs >>= λ slot. some (record sock {
              tx_slots =
                  set sock.tx_slots
                    (tx_seq sock sock.vs)
                    (record slot { len = length buf; ack = false; payload = buf });
            }))
            else none)
          ≡ some next
        → InRange next
    by_room true e = by_slot (tx_slot sock sock.vs) e
    by_room false e = cc
