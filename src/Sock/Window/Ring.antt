-- ===== src/Sock/Window/Ring.antt =====
-- The ring of sequence numbers that the acknowledgements of sock.c run round.
use patty.Prelude.{arith, if◌then◌else◌, ltb, suc, ℕ, ◌%◌, ◌+◌, ◌-◌, ◌<◌, ◌≡◌, ◌≢◌, ◌≤◌}
use patty.Sock.{Mode, dm, sabm, sabme, slot_count}

-- How far the sequence number `j` stands behind `i` on the ring of `n` of them.
unfoldable pub ahead : ℕ → ℕ → ℕ → ℕ
ahead n i j = (j + n - i % n) % n

pub ahead_here : (mode : Mode) (i : ℕ) → ahead (slot_count mode) i (i % slot_count mode) ≡ 0
unfolding ahead
ahead_here dm i = omega arith
ahead_here sabm i = omega arith
ahead_here sabme i = omega arith

pub ahead_further :
    (mode : Mode) (i j : ℕ)
    → j < slot_count mode
    → i % slot_count mode ≢ j
    → ahead (slot_count mode) i j ≡ suc (ahead (slot_count mode) (suc i) j)
unfolding ahead
ahead_further dm i j h ne = omega (arith, h, ne)
ahead_further sabm i j h ne = omega (arith, h, ne)
ahead_further sabme i j h ne = omega (arith, h, ne)

pub ahead_behind :
    (mode : Mode) (i : ℕ)
    → suc (ahead (slot_count mode) (suc i) (i % slot_count mode)) ≡ slot_count mode
unfolding ahead
ahead_behind dm i = omega arith
ahead_behind sabm i = omega arith
ahead_behind sabme i = omega arith

pub ahead-lt : (mode : Mode) (i j : ℕ) → ahead (slot_count mode) i j < slot_count mode
unfolding ahead
ahead-lt dm i j = omega arith
ahead-lt sabm i j = omega arith
ahead-lt sabme i j = omega arith

pub span_lem :
    (mode : Mode) (va nr : ℕ)
    → va < slot_count mode
    → nr < slot_count mode
    → va ≢ nr
    → (if ltb nr va then nr + slot_count mode else nr) - va ≡ ahead (slot_count mode) va nr
unfolding ahead
span_lem dm va nr h k ne = ground (arith, h, k, ne)
span_lem sabm va nr h k ne = ground (arith, h, k, ne)
span_lem sabme va nr h k ne = ground (arith, h, k, ne)

pub apart_lem :
    (mode : Mode) (i rounds : ℕ)
    → suc (suc rounds) ≤ slot_count mode
    → i % slot_count mode ≢ (suc i + rounds) % slot_count mode
apart_lem dm i rounds h e = omega (arith, h, e)
apart_lem sabm i rounds h e = omega (arith, h, e)
apart_lem sabme i rounds h e = omega (arith, h, e)

pub around :
    (mode : Mode) (va nr m : ℕ)
    → nr < slot_count mode
    → ahead (slot_count mode) va nr ≡ suc m
    → ((va + m) % slot_count mode ≡ (nr + slot_count mode - 1) % slot_count mode)
      × ((va + suc m) % slot_count mode ≡ nr)
unfolding ahead
around dm va nr m h e = (omega (arith, h, e), omega (arith, h, e))
around sabm va nr m h e = (omega (arith, h, e), omega (arith, h, e))
around sabme va nr m h e = (omega (arith, h, e), omega (arith, h, e))

pub ahead-suc :
    (mode : Mode) (va nr : ℕ)
    → va < slot_count mode
    → nr < slot_count mode
    → va ≢ nr
    → ahead (slot_count mode) va nr ≡ suc (ahead (slot_count mode) va nr - 1)
unfolding ahead
ahead-suc dm va nr h k ne = omega (arith, h, k, ne)
ahead-suc sabm va nr h k ne = omega (arith, h, k, ne)
ahead-suc sabme va nr h k ne = omega (arith, h, k, ne)
