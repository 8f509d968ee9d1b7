-- ===== src/Sock/Window/Acks.antt =====
-- Which slots patty_ax25_sock_ack of sock.c acknowledges.
use patty.Prelude.{
  ==_ne, Bool-cases, List, [], ap, arith, false, get_elem?, if◌then◌else◌, inl, inr, length, ltb,
  refl, set, some, some-injective, subst, suc, sym, true, zero, ℕ, ◌%◌, ◌<◌, ◌==◌, ◌∙◌, ◌∷◌, ◌≡◌,
  ◌≢◌, ◌≤◌,
}
use patty.Sock.{Mode, Slot, Sock, slot_count}
use patty.Sock.Window.{ack_loop, ack_slot, is_pending, sock_ack, tx_seq, tx_slot}
use patty.Sock.Window.Ring.{ahead, ahead-lt, ahead_behind, ahead_further, ahead_here, span_lem}
use patty.Sock.Window.Pending.{Acked, HasSlots, ack_slot-Acked, sock_ack-Acked, tx_slot-some}

-- A slot that waits is acknowledged, and another is left as it is.
unfoldable pub slot_acked : Slot → Slot
slot_acked slot = if is_pending slot then record slot { ack = true } else slot

get_elem?-set_if {ℓ} :
    {A : Type ℓ} (xs : List A) (i j : ℕ) (a x y : A)
    → get_elem? xs i ≡ some x
    → get_elem? xs j ≡ some y
    → get_elem? (set xs i a) j ≡ some (if i == j then a else y)
get_elem?-set_if [] i j a x y hi hj = cc
get_elem?-set_if (z ∷ xs) zero zero a x y hi hj = refl
get_elem?-set_if (z ∷ xs) zero (suc j) a x y hi hj =
    let apart : (0 == suc j) ≡ false = ground arith in rw apart hj
get_elem?-set_if (z ∷ xs) (suc i) zero a x y hi hj =
    let apart : (suc i == 0) ≡ false = ground arith in rw apart hj
get_elem?-set_if (z ∷ xs) (suc i) (suc j) a x y hi hj =
    let alike : (suc i == suc j) ≡ (i == j) = ground arith in
    rw alike (get_elem?-set_if xs i j a x y hi hj)

slot_acked-pending :
    (slot : Slot) → is_pending slot ≡ true → slot_acked slot ≡ record slot { ack = true }
unfolding slot_acked
slot_acked-pending slot p = rw p refl

slot_acked-idle : (slot : Slot) → is_pending slot ≡ false → slot_acked slot ≡ slot
unfolding slot_acked
slot_acked-idle slot p = rw p refl

-- The slot of a round, and another.
here_or :
    (xs : List Slot) (i j : ℕ) (here slot left : Slot)
    → get_elem? xs i ≡ some here
    → get_elem? xs j ≡ some slot
    → slot_acked here ≡ left
    → (if i == j then left else slot) ≡ (if i == j then slot_acked slot else slot)
here_or xs i j here slot left at is e = elim (Bool-cases (i == j)) [
  | inl same ↦
      let ij : i ≡ j = ground (arith, same) in
      let one : here ≡ slot = some-injective here slot (sym at ∙ ap (get_elem? xs) ij ∙ is) in
      rw same (sym e ∙ ap slot_acked one)
  | inr away ↦ rw away refl
]

-- What one round does to a slot.
pub ack_slot-slots :
    (sock : Sock) (i j ret : ℕ) (here slot : Slot)
    → tx_slot sock i ≡ some here
    → get_elem? sock.tx_slots j ≡ some slot
    → get_elem? (ack_slot sock i ret here).0.tx_slots j
      ≡ some (if tx_seq sock i == j then slot_acked slot else slot)
unfolding ack_slot slot_acked
ack_slot-slots sock i j ret here slot at is = elim (Bool-cases (is_pending here)) [
  | inl p ↦ rw p (
      get_elem?-set_if sock.tx_slots (tx_seq sock i) j _ here slot at is
      ∙ ap some (here_or sock.tx_slots _ j here slot _ at is (slot_acked-pending here p)))
  | inr p ↦
      let none_changed : slot ≡ (if tx_seq sock i == j then here else slot) =
        elim (Bool-cases (tx_seq sock i == j)) [
          | inl same ↦
              let ij : tx_seq sock i ≡ j = ground (arith, same) in
              rw same
                (some-injective slot here (sym is ∙ ap (get_elem? sock.tx_slots) (sym ij) ∙ at))
          | inr away ↦ rw away refl
        ] in
      rw p (
        is
        ∙ ap some (
            none_changed ∙ here_or sock.tx_slots _ j here slot here at is (slot_acked-idle here p)))
]

-- The slots that one round and those behind it reach.
reach :
    (mode : Mode) (i j rounds : ℕ) (slot : Slot)
    → suc rounds ≤ slot_count mode
    → j < slot_count mode
    → (if ltb (ahead (slot_count mode) (suc i) j) rounds
        then slot_acked (if i % slot_count mode == j then slot_acked slot else slot)
        else if i % slot_count mode == j
        then slot_acked slot
        else slot)
      ≡ (if ltb (ahead (slot_count mode) i j) (suc rounds) then slot_acked slot else slot)
reach mode i j rounds slot many below = elim (Bool-cases (i % slot_count mode == j)) [
  | inl same ↦
      let at : i % slot_count mode ≡ j = ground (arith, same) in
      let last : suc (ahead (slot_count mode) (suc i) j) ≡ slot_count mode =
        subst (λ k. suc (ahead (slot_count mode) (suc i) k) ≡ slot_count mode) at
          (ahead_behind mode i) in
      let first : ahead (slot_count mode) i j ≡ 0 =
        subst (λ k. ahead (slot_count mode) i k ≡ 0) at (ahead_here mode i) in
      let no : ltb (ahead (slot_count mode) (suc i) j) rounds ≡ false =
        ground (arith, last, many) in
      let yes_ : ltb (ahead (slot_count mode) i j) (suc rounds) ≡ true = ground (arith, first) in
      rw (same, no, yes_) refl
  | inr away ↦
      let next : ahead (slot_count mode) i j ≡ suc (ahead (slot_count mode) (suc i) j) =
        ahead_further mode i j below (λ at. ground (arith, at, away)) in
      let alike : ltb (ahead (slot_count mode) i j) (suc rounds)
          ≡ ltb (ahead (slot_count mode) (suc i) j) rounds =
        ground (arith, next) in
      rw (away, alike) refl
]

ack_loop-slots :
    (rounds i : ℕ) (sock : Sock) (ret j : ℕ) (slot : Slot) (after : Sock × ℕ)
    → HasSlots sock
    → rounds ≤ slot_count sock.mode
    → j < slot_count sock.mode
    → get_elem? sock.tx_slots j ≡ some slot
    → ack_loop rounds i (sock, ret) ≡ some after
    → get_elem? after.0.tx_slots j
      ≡ some (if ltb (ahead (slot_count sock.mode) i j) rounds then slot_acked slot else slot)
unfolding ack_loop HasSlots Acked
ack_loop-slots zero i sock ret j slot after h many below is run =
    let done : (sock, ret) ≡ after = some-injective (sock, ret) after run in
    let none_left : ltb (ahead (slot_count sock.mode) i j) 0 ≡ false = ground arith in
    subst
      (λ a.
        get_elem? a.0.tx_slots j
        ≡ some (if ltb (ahead (slot_count sock.mode) i j) 0 then slot_acked slot else slot))
      done (rw none_left is)
ack_loop-slots (suc rounds) i sock ret j slot after h many below is run =
    let found = tx_slot-some sock i h in
    let next = ack_slot sock i ret found.0 in
    let run' : ack_loop rounds (suc i) next ≡ some after = rw found.1 at run in
    let step = ack_slot-Acked sock i ret found.0 found.1 in
    let kept : slot_count next.0.mode ≡ slot_count sock.mode = ap slot_count step.1 in
    let rest =
      ack_loop-slots rounds (suc i) next.0 next.1 j
        (if tx_seq sock i == j then slot_acked slot else slot) after (step.0 ∙ h ∙ sym kept)
        (rw kept (omega (arith, many))) (rw kept below)
        (ack_slot-slots sock i j ret found.0 slot found.1 is) run' in
    subst
      (λ n.
        get_elem? after.0.tx_slots j
        ≡ some (
            if ltb (ahead n (suc i) j) rounds
            then slot_acked (if tx_seq sock i == j then slot_acked slot else slot)
            else if tx_seq sock i == j
            then slot_acked slot
            else slot))
      kept rest
    ∙ ap some (reach sock.mode i j rounds slot many below)

get_elem?-lt {ℓ} :
    {A : Type ℓ} (xs : List A) (i : ℕ) (a : A) → get_elem? xs i ≡ some a → i < length xs
get_elem?-lt [] i a h = cc
get_elem?-lt (x ∷ xs) zero a h = omega arith
get_elem?-lt (x ∷ xs) (suc i) a h = omega (arith, get_elem?-lt xs i a h)

-- Given as many slots as sequence numbers, with V(A) and N(R) sequence numbers that differ, the
-- call succeeds, and of the slots that wait it acknowledges those from V(A) up to N(R), without
-- N(R) itself, round the ring of sequence numbers, and no other; every other field of a slot stays,
-- and the call returns by how many the slots that wait have become fewer.
pub sock_ack-slots :
    (sock : Sock) (nr j : ℕ) (slot : Slot)
    → HasSlots sock
    → sock.va < slot_count sock.mode
    → nr < slot_count sock.mode
    → sock.va ≢ nr
    → get_elem? sock.tx_slots j ≡ some slot
    → (after : Sock × ℕ) × ((sock_ack sock nr ≡ some after)
        × Acked sock 0 after
        × (get_elem? after.0.tx_slots j
            ≡ some (
                if ltb
                  (ahead (slot_count sock.mode) sock.va j)
                  (ahead (slot_count sock.mode) sock.va nr)
                then slot_acked slot
                else slot)))
unfolding sock_ack HasSlots
sock_ack-slots sock nr j slot h va_in nr_in ne is =
    let (after, (run, counted)) = sock_ack-Acked sock nr h ne in
    let span = ahead (slot_count sock.mode) sock.va nr in
    let loop : ack_loop span sock.va (sock, 0) ≡ some after =
      subst (λ n. ack_loop n sock.va (sock, 0) ≡ some after)
        (span_lem sock.mode sock.va nr va_in nr_in ne) (rw (==_ne sock.va nr ne) at run) in
    let many : span ≤ slot_count sock.mode = omega (arith, ahead-lt sock.mode sock.va nr) in
    (
      after,
      (
        run,
        counted,
        ack_loop-slots span sock.va sock 0 j slot after h many
            (omega (arith, get_elem?-lt sock.tx_slots j slot is, h)) is loop,
      ),
    )
