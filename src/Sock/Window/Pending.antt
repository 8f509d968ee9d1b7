-- ===== src/Sock/Window/Pending.antt =====
-- The slots that wait for an acknowledgement, and patty_ax25_sock_ack of sock.c on them.
use patty.Prelude.{
  ==_ne, Bool, Bool-cases, List, [], ap, arith, false, get_elem?, if◌then◌else◌, inl, inr, length,
  length-set, ltb, refl, set, some, some-injective, suc, sym, true, zero, ℕ, ◌%◌, ◌&&◌, ◌+◌, ◌-◌,
  ◌<◌, ◌∙◌, ◌∷◌, ◌≡◌, ◌≢◌,
}
use patty.Sock.{Mode, Slot, Sock, dm, sabm, sabme, slot_count}
use patty.Sock.Window.{
  ack_loop, ack_pending, ack_slot, is_pending, pending_loop, sock_ack, tx_seq, tx_slot,
}

-- How many of the slots wait.
pub waiting : List Slot → ℕ
waiting [] = 0
waiting (slot ∷ slots) = if is_pending slot then suc (waiting slots) else waiting slots

pub pending_loop-waiting :
    (slots : List Slot) (ret : ℕ)
    → pending_loop (length slots) slots ret ≡ some (ret + waiting slots)
unfolding pending_loop waiting
pending_loop-waiting [] ret = ap some (omega arith)
pending_loop-waiting (slot ∷ slots) ret =
    counted (is_pending slot) (λ n. pending_loop-waiting slots n)
  where
    counted :
        (b : Bool)
        → ((n : ℕ) → pending_loop (length slots) slots n ≡ some (n + waiting slots))
        → pending_loop (length slots) slots (if b then ret + 1 else ret)
          ≡ some (ret + (if b then suc (waiting slots) else waiting slots))
    counted true ih = ih (ret + 1) ∙ ap some (omega arith)
    counted false ih = ih ret

and_false : (b : Bool) → (b && false) ≡ false
and_false true = refl
and_false false = refl

acked-not_pending : (slot : Slot) → is_pending (record slot { ack = true }) ≡ false
unfolding is_pending
acked-not_pending slot = and_false (ltb 0 slot.len)

-- A slot that is acknowledged no longer waits, the others as before.
pub waiting-set :
    (slots : List Slot) (i : ℕ) (slot : Slot)
    → get_elem? slots i ≡ some slot
    → is_pending slot ≡ true
    → suc (waiting (set slots i (record slot { ack = true }))) ≡ waiting slots
unfolding waiting
waiting-set [] i slot at p = cc
waiting-set (s ∷ slots) zero slot at p =
    let same : s ≡ slot = some-injective s slot at in
    let now : is_pending (record slot { ack = true }) ≡ false = acked-not_pending slot in
    rw (now, same, p) refl
waiting-set (s ∷ slots) (suc i) slot at p = elim (Bool-cases (is_pending s)) [
  | inl e ↦ rw e (ap suc (waiting-set slots i slot at p))
  | inr e ↦ rw e (waiting-set slots i slot at p)
]

pub get_elem?-below {ℓ} :
    {A : Type ℓ} (xs : List A) (i : ℕ) → i < length xs → (x : A) × (get_elem? xs i ≡ some x)
get_elem?-below [] i h = absurd (omega arith)
get_elem?-below (x ∷ xs) zero h = (x, refl)
get_elem?-below (x ∷ xs) (suc i) h = get_elem?-below xs i (omega arith)

-- As many slots as there are sequence numbers.
unfoldable pub HasSlots : Sock → Type 0
HasSlots sock = length sock.tx_slots ≡ slot_count sock.mode

pub seq-below : (sock : Sock) (seq : ℕ) → tx_seq sock seq < slot_count sock.mode
seq-below sock seq = below sock.mode
  where
    below : (mode : Mode) → seq % slot_count mode < slot_count mode
    below dm = omega arith
    below sabm = omega arith
    below sabme = omega arith

pub tx_slot-some :
    (sock : Sock) (seq : ℕ) → HasSlots sock → (slot : Slot) × (tx_slot sock seq ≡ some slot)
unfolding HasSlots
tx_slot-some sock seq h =
    get_elem?-below sock.tx_slots (tx_seq sock seq) (omega (arith, seq-below sock seq))

-- What the rounds of the loop do to the slots: those that are counted no longer wait.
unfoldable pub Acked : Sock → ℕ → Sock × ℕ → Type 0
Acked sock ret (after, ret') =
    (length after.tx_slots ≡ length sock.tx_slots)
    × (after.mode ≡ sock.mode)
    × (waiting after.tx_slots + ret' ≡ waiting sock.tx_slots + ret)
    × (sock.va < slot_count sock.mode → after.va < slot_count after.mode)
    × (after.vs ≡ sock.vs)
    × (after.vr ≡ sock.vr)
    × (after.n_maxlen_tx ≡ sock.n_maxlen_tx)

pub ack_slot-Acked :
    (sock : Sock) (i ret : ℕ) (slot : Slot)
    → tx_slot sock i ≡ some slot
    → Acked sock ret (ack_slot sock i ret slot)
unfolding ack_slot Acked
ack_slot-Acked sock i ret slot at = elim (Bool-cases (is_pending slot)) [
  | inl e ↦ rw e (
    length-set sock.tx_slots (tx_seq sock i) (record slot { ack = true }),
    refl,
    omega (arith, waiting-set sock.tx_slots (tx_seq sock i) slot at e),
    (λ _. seq-below sock (i + 1)),
    refl,
    refl,
    refl,
  )
  | inr e ↦ rw e (refl, refl, refl, (λ h. h), refl, refl, refl)
]

Acked-trans :
    (a : Sock) (n : ℕ) (b : Sock × ℕ) (c : Sock × ℕ) → Acked a n b → Acked b.0 b.1 c → Acked a n c
unfolding Acked
Acked-trans a n (b, m) (c, k) p q = (
  q.0 ∙ p.0,
  q.1 ∙ p.1,
  omega (arith, p.2, q.2),
  (λ h. q.3 (p.3 h)),
  q.4 ∙ p.4,
  q.5 ∙ p.5,
  q.6 ∙ p.6,
)

pub ack_loop-Acked :
    (rounds i : ℕ) (sock : Sock) (ret : ℕ)
    → HasSlots sock
    → (after : Sock × ℕ) × ((ack_loop rounds i (sock, ret) ≡ some after) × Acked sock ret after)
unfolding ack_loop HasSlots Acked
ack_loop-Acked zero i sock ret h =
    ((sock, ret), (refl, (refl, refl, refl, (λ g. g), refl, refl, refl)))
ack_loop-Acked (suc rounds) i sock ret h =
    let found = tx_slot-some sock i h in
    let step = ack_slot-Acked sock i ret found.0 found.1 in
    let next = ack_slot sock i ret found.0 in
    let rest =
      ack_loop-Acked rounds (suc i) next.0 next.1 (step.0 ∙ h ∙ ap slot_count (sym step.1)) in
    (rest.0, (rw found.1 rest.1.0, Acked-trans sock ret next rest.0 step rest.1.1))

-- Given as many slots as sequence numbers, acknowledging up to an N(R) other than V(A) succeeds,
-- returns by how many the slots that wait have become fewer, and keeps the number of slots, V(S)
-- and V(R); V(A) stays a sequence number.
pub sock_ack-Acked :
    (sock : Sock) (nr : ℕ)
    → HasSlots sock
    → sock.va ≢ nr
    → (after : Sock × ℕ) × ((sock_ack sock nr ≡ some after) × Acked sock 0 after)
unfolding sock_ack
sock_ack-Acked sock nr h ne = rw (==_ne sock.va nr ne) (
    ack_loop-Acked ((if ltb nr sock.va then nr + slot_count sock.mode else nr) - sock.va) sock.va
      sock 0 h)

-- Given as many slots as sequence numbers, patty_ax25_sock_ack_pending returns how many slots wait.
pub ack_pending-waiting :
    (sock : Sock) → HasSlots sock → ack_pending sock ≡ some (waiting sock.tx_slots)
unfolding ack_pending HasSlots
ack_pending-waiting sock h =
    ap (λ n. pending_loop n sock.tx_slots 0) (sym h)
    ∙ pending_loop-waiting sock.tx_slots 0
    ∙ ap some (omega arith)
