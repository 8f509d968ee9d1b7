-- ===== src/Sock/Window/Overflow.antt =====
-- patty_ax25_sock_ack of sock.c before the slots have been allocated for the mode.
use patty.Prelude.{
  Bool-cases, List, Option, [], ap, arith, false, get_elem?, inl, inr, length, length-set, ltb,
  none, refl, some, suc, sym, true, zero, ℕ, ◌+◌, ◌-◌, ◌<◌, ◌==◌, ◌>>=◌, ◌∙◌, ◌∷◌, ◌≡◌, ◌≢◌, ◌≤◌,
}
use patty.Sock.{Slot, Sock, sabme}
use patty.Sock.Window.{ack_loop, ack_slot, is_pending, sock_ack, tx_seq, tx_slot}

get_elem?-beyond : {A : Type 0} (xs : List A) (i : ℕ) → length xs ≤ i → get_elem? xs i ≡ none
get_elem?-beyond [] i h = refl
get_elem?-beyond (x ∷ xs) zero h = absurd (omega (arith, h))
get_elem?-beyond (x ∷ xs) (suc i) h = get_elem?-beyond xs i (omega (arith, h))

none_ne_some : {A : Type 0} {a : A} → none ≢ some a
none_ne_some h = cc

-- A socket in mode SABME with the slots of another mode.
record Short (n : ℕ) (sock : Sock) : Type 0 where
  mode_is : sock.mode ≡ sabme
  slots : length sock.tx_slots ≡ n

ack_slot-Short :
    (n : ℕ) (sock : Sock) (i ret : ℕ) (slot : Slot)
    → Short n sock
    → Short n (ack_slot sock i ret slot).0
unfolding ack_slot
ack_slot-Short n sock i ret slot h = elim (Bool-cases (is_pending slot)) [
  | inl e ↦ rw e (record {
    mode_is = h.mode_is;
    slots = length-set sock.tx_slots (tx_seq sock i) (record slot { ack = true }) ∙ h.slots;
  })
  | inr e ↦ rw e h
]

ack_loop-none :
    (rounds i n : ℕ) (sock : Sock) (ret : ℕ)
    → Short n sock
    → i ≤ n
    → n < i + rounds
    → i + rounds ≤ 128
    → ack_loop rounds i (sock, ret) ≡ none
unfolding ack_loop
ack_loop-none zero i n sock ret h low high room = absurd (omega (arith, low, high))
ack_loop-none (suc rounds) i n sock ret h low high room =
    by_slot (tx_slot sock i) refl (λ slot below.
      ack_loop-none rounds (suc i) n (ack_slot sock i ret slot).0 (ack_slot sock i ret slot).1
        (ack_slot-Short n sock i ret slot h) below (omega (arith, high)) (omega (arith, room)))
  where
    same_seq : tx_seq sock i ≡ i
    same_seq = rw h.mode_is (omega (arith, room))

    by_slot :
        (found : Option Slot)
        → tx_slot sock i ≡ found
        → ((slot : Slot) → suc i ≤ n → ack_loop rounds (suc i) (ack_slot sock i ret slot) ≡ none)
        → (found >>= λ slot. ack_loop rounds (suc i) (ack_slot sock i ret slot)) ≡ none
    by_slot none at ih = refl
    by_slot (some slot) at ih = elim (Bool-cases (ltb i n)) [
      | inl e ↦ ih slot (ground (arith, e))
      | inr e ↦
          let gone : get_elem? sock.tx_slots i ≡ none =
            get_elem?-beyond sock.tx_slots i (ground (arith, e, h.slots)) in
          let here : get_elem? sock.tx_slots i ≡ some slot =
            ap (get_elem? sock.tx_slots) (sym same_seq) ∙ at in
          absurd (none_ne_some (sym gone ∙ here))
    ]

-- In mode SABME, with the slots of another mode and V(A) at 0, an N(R) above the number of the slots
-- takes patty_ax25_sock_ack behind them.
pub sock_ack-none :
    (sock : Sock) (nr : ℕ)
    → sock.mode ≡ sabme
    → sock.va ≡ 0
    → length sock.tx_slots < nr
    → nr < 128
    → sock_ack sock nr ≡ none
unfolding sock_ack
sock_ack-none sock nr mode va more small =
    let other : (sock.va == nr) ≡ false = ground (arith, va, more) in
    let forward : ltb nr sock.va ≡ false = ground (arith, va) in
    let short : Short (length sock.tx_slots) sock = record { mode_is = mode; slots = refl } in
    rw (other, forward)
      (ack_loop-none (nr - sock.va) sock.va (length sock.tx_slots) sock 0 short (omega (arith, va))
        (omega (arith, va, more)) (omega (arith, va, small)))
