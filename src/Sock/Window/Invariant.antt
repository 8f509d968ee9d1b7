-- ===== src/Sock/Window/Invariant.antt =====
-- The sequence numbers of a socket of sock.c over its whole life on a link.
use patty.Prelude.{
  All, Bool-cases, List, Option, [], ap, arith, false, inl, inr, leb, length, length-replicate,
  length-set, none, refl, replicate, set, some, subst, suc, sym, true, ℕ, ◌+◌, ◌<◌, ◌==◌, ◌>>=◌,
  ◌∙◌, ◌∷◌, ◌≡◌, ◌≢◌,
}
use patty.Prelude.Bits.{and_0x07, and_0x7f}
use patty.Sock.{
  Mode, Slot, Sock, clear_slots, dm, empty_slot, init_bufs, reset, restarted, sabm, sabme,
  slot_count,
}
use patty.Sock.Window.{next_seq, sock_ack, tx_seq, tx_slot_save, vr_incr, vs_incr}
use patty.Sock.Window.Pending.{Acked, HasSlots, seq-below, sock_ack-Acked, tx_slot-some}

-- The operations that move the window. `advance` is the assignment of patty_ax25_sock_resend_pending
-- and `save` is `tx_slot_save`.
pub data Op : Type 0 where
  save : List ℕ → Op
  sent : Op
  received : Op
  advance : Op
  acked : ℕ → Op
  restart : Op

acked_sock : Option (Sock × ℕ) → Option Sock
acked_sock none = none
acked_sock (some after) = some after.0

pub run_op : Op → Sock → Option Sock
unfolding acked_sock
run_op (save buf) sock = tx_slot_save sock buf
run_op sent sock = some (vs_incr sock)
run_op received sock = some (vr_incr sock)
run_op advance sock = some (record sock { vs = tx_seq sock (sock.vs + 1) })
run_op (acked nr) sock = acked_sock (sock_ack sock nr)
run_op restart sock = reset sock

pub run_ops : List Op → Sock → Option Sock
unfolding run_op
run_ops [] sock = some sock
run_ops (op ∷ ops) sock = run_op op sock >>= λ next. run_ops ops next

-- Nothing that is saved is longer than a slot.
unfoldable pub Fits : ℕ → Op → Type 0
Fits mtu (save buf) = leb (length buf) mtu ≡ true
Fits mtu _ = Unit

-- A socket on a link: it has a slot for each sequence number, and its three variables are sequence
-- numbers.
unfoldable pub InRange : Sock → Type 0
InRange sock =
    (sock.mode ≢ dm)
    × HasSlots sock
    × (sock.vs < slot_count sock.mode)
    × (sock.vr < slot_count sock.mode)
    × (sock.va < slot_count sock.mode)

pub next_seq-below : (mode : Mode) (seq : ℕ) → mode ≢ dm → next_seq mode seq < slot_count mode
next_seq-below dm seq h = absurd (h refl)
next_seq-below sabm seq h = omega (arith, and_0x07 (seq + 1))
next_seq-below sabme seq h = omega (arith, and_0x7f (seq + 1))

pub clear_slots-total :
    (slots : List Slot)
    → (after : List Slot) × ((clear_slots (length slots) slots ≡ some after)
        × (length after ≡ length slots))
unfolding clear_slots
clear_slots-total [] = ([], (refl, refl))
clear_slots-total (slot ∷ slots) =
    let rest = clear_slots-total slots in
    (record slot { len = 0; ack = false } ∷ rest.0, (rw rest.1.0 refl, ap suc rest.1.1))

slot_count-positive : (mode : Mode) → 0 < slot_count mode
slot_count-positive dm = omega arith
slot_count-positive sabm = omega arith
slot_count-positive sabme = omega arith

-- `op` keeps the socket in range and its mtu.
Keeps : Op → Sock → Type 0
Keeps op sock =
    (next : Sock) × ((run_op op sock ≡ some next)
      × InRange next
      × (next.n_maxlen_tx ≡ sock.n_maxlen_tx))

save-Keeps :
    (buf : List ℕ) (sock : Sock)
    → InRange sock
    → leb (length buf) sock.n_maxlen_tx ≡ true
    → Keeps (save buf) sock
unfolding Keeps run_op tx_slot_save InRange HasSlots
save-Keeps buf sock h fits =
    let found = tx_slot-some sock sock.vs h.1 in
    let slot = record found.0 { len = length buf; ack = false; payload = buf } in
    let slots = set sock.tx_slots (tx_seq sock sock.vs) slot in
    (
      record sock { tx_slots = slots },
      (
        rw (fits, found.1) refl,
        (h.0, length-set sock.tx_slots (tx_seq sock sock.vs) slot ∙ h.1, h.2, h.3, h.4),
        refl,
      ),
    )

-- A reset of a socket in range.
pub reset_kept :
    (sock : Sock)
    → InRange sock
    → (after : Sock) × ((reset sock ≡ some after)
        × InRange after
        × (after.mode ≡ sock.mode)
        × (after.n_maxlen_tx ≡ sock.n_maxlen_tx))
unfolding reset restarted InRange HasSlots
reset_kept sock h =
    let cleared = clear_slots-total sock.tx_slots in
    let zero_below = slot_count-positive sock.mode in
    let found : clear_slots (slot_count sock.mode) sock.tx_slots ≡ some cleared.0 =
      ap (λ n. clear_slots n sock.tx_slots) (sym h.1) ∙ cleared.1.0 in
    (
      restarted sock cleared.0,
      (rw found refl, (h.0, cleared.1.1 ∙ h.1, zero_below, zero_below, zero_below), refl, refl),
    )

restart-Keeps : (sock : Sock) → InRange sock → Keeps restart sock
unfolding Keeps run_op
restart-Keeps sock h = let after = reset_kept sock h in (after.0, (after.1.0, after.1.1, after.1.3))

-- patty_ax25_sock_ack on a socket in range.
pub sock_ack-InRange :
    (sock : Sock) (nr : ℕ)
    → InRange sock
    → (after : Sock × ℕ) × ((sock_ack sock nr ≡ some after)
        × InRange after.0
        × (after.0.mode ≡ sock.mode)
        × (after.0.n_maxlen_tx ≡ sock.n_maxlen_tx))
unfolding sock_ack InRange HasSlots Acked
sock_ack-InRange sock nr h = elim (Bool-cases (sock.va == nr)) [
  | inl e ↦ ((sock, 1), (rw e refl, h, refl, refl))
  | inr e ↦
      let acked = sock_ack-Acked sock nr h.1 (λ same. ground (arith, same, e)) in
      let facts = acked.1.1 in
      let modes = facts.1 in
      (
        acked.0,
        (
          acked.1.0,
          (
            (λ is_dm. h.0 (sym modes ∙ is_dm)),
            facts.0 ∙ h.1 ∙ ap slot_count (sym modes),
            subst (λ (m : Mode). acked.0.0.vs < slot_count m) (sym modes) (rw facts.4 h.2),
            subst (λ (m : Mode). acked.0.0.vr < slot_count m) (sym modes) (rw facts.5 h.3),
            facts.3 h.4,
          ),
          modes,
          facts.6,
        ),
      )
]

acked-Keeps : (nr : ℕ) (sock : Sock) → InRange sock → Keeps (acked nr) sock
unfolding Keeps run_op acked_sock
acked-Keeps nr sock h =
    let acked = sock_ack-InRange sock nr h in (acked.0.0, (rw acked.1.0 refl, acked.1.1, acked.1.3))

op-Keeps : (op : Op) (sock : Sock) → InRange sock → Fits sock.n_maxlen_tx op → Keeps op sock
unfolding Keeps run_op InRange HasSlots Fits vs_incr vr_incr
op-Keeps (save buf) sock h fits = save-Keeps buf sock h fits
op-Keeps sent sock h fits =
    (_, (refl, (h.0, h.1, next_seq-below sock.mode sock.vs h.0, h.3, h.4), refl))
op-Keeps received sock h fits =
    (_, (refl, (h.0, h.1, h.2, next_seq-below sock.mode sock.vr h.0, h.4), refl))
op-Keeps advance sock h fits = (_, (refl, (h.0, h.1, seq-below sock (sock.vs + 1), h.3, h.4), refl))
op-Keeps (acked nr) sock h fits = acked-Keeps nr sock h
op-Keeps restart sock h fits = restart-Keeps sock h

-- A socket in range runs any sequence of window operations whose saved bytes fit a slot, none of
-- them reaching outside the slots, and is in range after them.
pub run_ops-InRange :
    (ops : List Op) (sock : Sock)
    → InRange sock
    → All (Fits sock.n_maxlen_tx) ops
    → (after : Sock) × ((run_ops ops sock ≡ some after) × InRange after)
unfolding run_ops Keeps
run_ops-InRange [] sock h fits = (sock, (refl, h))
run_ops-InRange (op ∷ ops) sock h fits =
    let step = op-Keeps op sock h fits.0 in
    let same = step.1.2 in
    let rest =
      run_ops-InRange ops step.0 step.1.1 (subst (λ (n : ℕ). All (Fits n) ops) (sym same) fits.1) in
    (rest.0, (rw step.1.0 rest.1.0, rest.1.1))

-- On a link, allocating the slots and resetting the socket succeeds, and leaves it in range.
pub reset-InRange :
    (sock : Sock)
    → sock.mode ≢ dm
    → (after : Sock) × ((reset (init_bufs sock) ≡ some after) × InRange after)
unfolding init_bufs reset restarted InRange HasSlots
reset-InRange sock h =
    let count = length-replicate (slot_count sock.mode) empty_slot in
    let cleared = clear_slots-total (replicate (slot_count sock.mode) empty_slot) in
    let zero_below = slot_count-positive sock.mode in
    let found : clear_slots (slot_count sock.mode) (replicate (slot_count sock.mode) empty_slot)
        ≡ some cleared.0 =
      ap (λ n. clear_slots n (replicate (slot_count sock.mode) empty_slot)) (sym count)
      ∙ cleared.1.0 in
    (
      restarted (init_bufs sock) cleared.0,
      (rw found refl, (h, cleared.1.1 ∙ count, zero_below, zero_below, zero_below)),
    )

-- Counting a frame as received keeps a socket in range.
pub vr_incr-InRange : (sock : Sock) → InRange sock → InRange (vr_incr sock)
unfolding InRange HasSlots vr_incr
vr_incr-InRange sock h = (h.0, h.1, h.2, next_seq-below sock.mode sock.vr h.0, h.4)
