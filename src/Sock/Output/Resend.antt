-- ===== src/Sock/Output/Resend.antt =====
-- Resending what patty_ax25_sock_write has sent, in sock.c.
use patty.Prelude.{
  List, [], arith, false, get_elem?, leb, length, ltb, refl, set, some, suc, take_all, true, zero,
  ℕ, ◌<◌, ◌∷◌, ◌≡◌,
}
use patty.Result.{ok, ◌>>=◌}
use patty.Sock.{Slot, Sock, is_dm}
use patty.Sock.Window.{flow_left, tx_seq, tx_slot_save, vs_incr}
use patty.Sock.Window.Pending.{HasSlots, seq-below, tx_slot-some}
use patty.Sock.Output.{
  encode_address, frame_send, i_flag, in_array, resend, sock_control_i, write_stream,
}

get_elem?-set {ℓ} :
    {A : Type ℓ} (xs : List A) (i : ℕ) (a : A) → i < length xs → get_elem? (set xs i a) i ≡ some a
get_elem?-set [] i a h = absurd (omega arith)
get_elem?-set (x ∷ xs) zero a h = refl
get_elem?-set (x ∷ xs) (suc i) a h = get_elem?-set xs i a (omega arith)

-- The socket once `buf` has been saved in the slot of V(S).
saved_sock : Sock → List ℕ → Slot → Sock
saved_sock sock buf slot = record sock {
  tx_slots =
      set sock.tx_slots (tx_seq sock sock.vs)
        (record slot { len = length buf; ack = false; payload = buf });
}

saved_slot : Slot → List ℕ → Slot
saved_slot slot buf = record slot { len = length buf; ack = false; payload = buf }

-- Where a stream socket is in another mode than DM and has a slot for each sequence number, its
-- write of some data that fit a slot
-- saves them and comes to the same as resending that sequence number: the same frame and the same
-- errors, provided that the window gives I frames the same poll bit before and after V(S) goes up.
pub write_stream-resend :
    (sock : Sock) (buf : List ℕ)
    → is_dm sock.mode ≡ false
    → HasSlots sock
    → 0 < length buf
    → leb (length buf) sock.n_maxlen_tx ≡ true
    → i_flag (flow_left (vs_incr sock)) ≡ i_flag (flow_left sock)
    → (saved : Sock) × ((tx_slot_save sock buf ≡ some saved)
        × (write_stream sock buf
            ≡ (resend (vs_incr saved) sock.vs >>= λ sent. ok (vs_incr saved, sent))))
unfolding write_stream resend frame_send encode_address sock_control_i in_array saved_sock
    saved_slot tx_slot_save vs_incr flow_left HasSlots
write_stream-resend sock buf linked slots some_data fits flag =
    let found = tx_slot-some sock sock.vs slots in
    let at = tx_seq sock sock.vs in
    let again =
      get_elem?-set sock.tx_slots at (saved_slot found.0 buf)
        (omega (arith, seq-below sock sock.vs)) in
    let positive : ltb 0 (length buf) ≡ true = ground (arith, some_data) in
    let whole = take_all buf in
    (
      saved_sock sock buf found.0,
      (rw (fits, found.1) refl, rw (linked, fits, found.1, again, positive, whole, flag) refl),
    )
