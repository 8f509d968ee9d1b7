-- ===== src/Sock/Window/Advance.antt =====
-- How far patty_ax25_sock_ack of sock.c moves V(A).
use patty.Prelude.{
  ==_ne, ap, arith, false, get_elem?, refl, some, some-injective, subst, suc, sym, true, zero, ℕ,
  ◌%◌, ◌+◌, ◌-◌, ◌<◌, ◌==◌, ◌∙◌, ◌≡◌, ◌≢◌, ◌≤◌,
}
use patty.Sock.{Slot, Sock, slot_count}
use patty.Sock.Window.{ack_loop, ack_slot, is_pending, sock_ack, tx_seq, tx_slot}
use patty.Sock.Window.Pending.{Acked, HasSlots, ack_slot-Acked, sock_ack-Acked, tx_slot-some}
use patty.Sock.Window.Ring.{ahead, ahead-lt, ahead-suc, apart_lem, around, span_lem}
use patty.Sock.Window.Acks.{ack_slot-slots}

-- Where the last of the rounds comes to a slot that waits, V(A) is the number behind that slot.
ack_loop-va :
    (rounds i : ℕ) (sock : Sock) (ret : ℕ) (slot : Slot) (after : Sock × ℕ)
    → HasSlots sock
    → suc rounds ≤ slot_count sock.mode
    → get_elem? sock.tx_slots ((i + rounds) % slot_count sock.mode) ≡ some slot
    → is_pending slot ≡ true
    → ack_loop (suc rounds) i (sock, ret) ≡ some after
    → after.0.va ≡ (i + suc rounds) % slot_count sock.mode
unfolding ack_loop ack_slot HasSlots Acked
ack_loop-va zero i sock ret slot after h many is p run =
    let e : i + 0 ≡ i = omega arith in
    let at : tx_slot sock i ≡ some slot =
      subst (λ k. get_elem? sock.tx_slots (k % slot_count sock.mode) ≡ some slot) e is in
    let ends : some (ack_slot sock i ret slot) ≡ some after = rw at at run in
    let va_is : (ack_slot sock i ret slot).0.va ≡ tx_seq sock (i + 1) = rw p refl in
    ap (λ (a : Sock × ℕ). a.0.va) (sym (some-injective _ after ends)) ∙ va_is
ack_loop-va (suc rounds) i sock ret slot after h many is p run =
    let found = tx_slot-some sock i h in
    let next = ack_slot sock i ret found.0 in
    let run' : ack_loop (suc rounds) (suc i) next ≡ some after = rw found.1 at run in
    let step = ack_slot-Acked sock i ret found.0 found.1 in
    let n = slot_count sock.mode in
    let kept : slot_count next.0.mode ≡ n = ap slot_count step.1 in
    let e : i + suc rounds ≡ suc i + rounds = omega arith in
    let is' : get_elem? sock.tx_slots ((suc i + rounds) % n) ≡ some slot =
      subst (λ k. get_elem? sock.tx_slots (k % n) ≡ some slot) e is in
    let other : (tx_seq sock i == (suc i + rounds) % n) ≡ false =
      ==_ne _ _ (apart_lem sock.mode i rounds many) in
    let stays : get_elem? next.0.tx_slots ((suc i + rounds) % n) ≡ some slot =
      ack_slot-slots sock i ((suc i + rounds) % n) ret found.0 slot found.1 is' ∙ rw other refl in
    let rest =
      ack_loop-va rounds (suc i) next.0 next.1 slot after (step.0 ∙ h ∙ sym kept)
        (rw kept (omega (arith, many))) (rw kept stays) p run' in
    let e' : suc i + suc rounds ≡ i + suc (suc rounds) = omega arith in
    rest ∙ ap (λ k. (suc i + suc rounds) % k) kept ∙ ap (λ k. k % n) e'

-- Given as many slots as sequence numbers, with V(A) and N(R) sequence numbers that differ, an
-- acknowledgement of a slot that waits just before N(R), as that of the frame sent last does, makes
-- N(R) the new V(A).
pub sock_ack-va :
    (sock : Sock) (nr : ℕ) (slot : Slot)
    → HasSlots sock
    → sock.va < slot_count sock.mode
    → nr < slot_count sock.mode
    → sock.va ≢ nr
    → tx_slot sock (nr + slot_count sock.mode - 1) ≡ some slot
    → is_pending slot ≡ true
    → (after : Sock × ℕ) × ((sock_ack sock nr ≡ some after) × (after.0.va ≡ nr))
unfolding sock_ack
sock_ack-va sock nr slot h va_in nr_in ne at p =
    let (after, (run, counted)) = sock_ack-Acked sock nr h ne in
    let n = slot_count sock.mode in
    let m = ahead n sock.va nr - 1 in
    let span : ahead n sock.va nr ≡ suc m = ahead-suc sock.mode sock.va nr va_in nr_in ne in
    let loop : ack_loop (suc m) sock.va (sock, 0) ≡ some after =
      subst (λ k. ack_loop k sock.va (sock, 0) ≡ some after)
        (span_lem sock.mode sock.va nr va_in nr_in ne ∙ span) (rw (==_ne sock.va nr ne) at run) in
    let (before_nr, is_nr) = around sock.mode sock.va nr m nr_in span in
    let at' : get_elem? sock.tx_slots ((sock.va + m) % n) ≡ some slot =
      subst (λ k. get_elem? sock.tx_slots k ≡ some slot) (sym before_nr) at in
    let many : suc m ≤ n = omega (arith, ahead-lt sock.mode sock.va nr, span) in
    (after, (run, ack_loop-va m sock.va sock 0 slot after h many at' p loop ∙ is_nr))
