-- ===== src/Timer/Elapse.antt =====
-- How a timer runs down under patty_timer_tick.
use patty.Prelude.{List, [], ap, arith, refl, suc, true, ℕ, ◌*◌, ◌+◌, ◌-◌, ◌↔◌, ◌∙◌, ◌∷◌, ◌≡◌}
use patty.Prelude.Int.{
  +ℤ_parts, -ℤ_parts, neg_part, negsuc, pos, pos_part, quot, rem, sub_ℕ, ℤ, ℤ-eq_of_parts, ◌+ℤ◌,
  ◌-ℤ◌, ◌<ℤ◌, ◌≤ℤ◌,
}
use patty.Timer.{Timer, Timespec, expired, nsec_per_sec, start, sub, tick}

-- A number of whole seconds, in nanoseconds.
abbrev times : ℕ → ℤ → ℤ
times k (pos n) = pos (n * k)
times k (negsuc n) = sub_ℕ 0 (suc n * k)

pub total : Timespec → ℤ
total t = times nsec_per_sec t.tv_sec +ℤ t.tv_nsec

-- The nanoseconds are within a second.
abbrev pub IsNormal : Timespec → Type 0
IsNormal t = (pos 0 ≤ℤ t.tv_nsec) × (t.tv_nsec <ℤ pos nsec_per_sec)

quot_small :
    (m n : ℤ)
    → pos 0 ≤ℤ m
    → m <ℤ pos nsec_per_sec
    → pos 0 ≤ℤ n
    → n <ℤ pos nsec_per_sec
    → (quot (m -ℤ n) nsec_per_sec ≡ pos 0) × (rem (m -ℤ n) nsec_per_sec ≡ m -ℤ n)
unfolding ◌-ℤ◌
quot_small m n m0 m1 n0 n1 = ground arith

times_parts :
    (k : ℕ) (a : ℤ) → pos_part (times k a) + neg_part a * k ≡ neg_part (times k a) + pos_part a * k
times_parts k (pos n) = omega arith
times_parts k (negsuc n) = ground arith

seconds_apart :
    (s t m n : ℤ)
    → times nsec_per_sec (s -ℤ t -ℤ pos 0) +ℤ (m -ℤ n)
      ≡ (times nsec_per_sec s +ℤ m) -ℤ (times nsec_per_sec t +ℤ n)
seconds_apart s t m n = ℤ-eq_of_parts _ _ (omega (arith, +ℤ_parts, -ℤ_parts, times_parts))

-- With the nanoseconds of both times within a second, patty_timer_sub is the difference of the
-- times.
pub total-sub : (a b : Timespec) → IsNormal a → IsNormal b → total (sub a b) ≡ total a -ℤ total b
unfolding sub total
total-sub a b ha hb =
    let (q, r) = quot_small a.tv_nsec b.tv_nsec ha.0 ha.1 hb.0 hb.1 in
    rw (q, r) (seconds_apart a.tv_sec b.tv_sec a.tv_nsec b.tv_nsec)

-- The steps that last less than a second.
abbrev pub IsShort : Timespec → Type 0
IsShort e = (e.tv_sec ≡ pos 0) × IsNormal e

pub ticks : Timer → List Timespec → Timer
ticks timer [] = timer
ticks timer (e ∷ es) = ticks (tick timer e) es

record Lasting (timer : Timer) : Type 0 where
  on : timer.running ≡ true
  seconds : pos 1 ≤ℤ timer.t.tv_sec
  nanoseconds : timer.t.tv_nsec <ℤ pos nsec_per_sec

start-IsNormal : (timer : Timer) → IsNormal (start timer).t
unfolding start
start-IsNormal timer = omega arith

total-start : (timer : Timer) → total (start timer).t ≡ pos (timer.ms * 1000000)
unfolding start total ◌+ℤ◌
total-start timer = ground arith

-- Between minus a second and a second of nanoseconds, the test for expiry reads the time.
expired-total_iff :
    (timer : Timer)
    → timer.running ≡ true
    → negsuc (nsec_per_sec - 2) ≤ℤ timer.t.tv_nsec
    → timer.t.tv_nsec <ℤ pos nsec_per_sec
    → (expired timer ≡ true) ↔ (total timer.t ≤ℤ pos 0)
unfolding expired total
expired-total_iff timer on lo hi = ground (
  arith,
  +ℤ_parts (times nsec_per_sec timer.t.tv_sec) timer.t.tv_nsec,
  times_parts nsec_per_sec timer.t.tv_sec,
)

nsec-sub :
    (a b : Timespec)
    → IsNormal a
    → IsNormal b
    → (negsuc (nsec_per_sec - 2) ≤ℤ (sub a b).tv_nsec) × ((sub a b).tv_nsec <ℤ pos nsec_per_sec)
unfolding sub
nsec-sub a b ha hb =
    rw ((quot_small a.tv_nsec b.tv_nsec ha.0 ha.1 hb.0 hb.1).1)
      (omega (arith, -ℤ_parts a.tv_nsec b.tv_nsec), omega (arith, -ℤ_parts a.tv_nsec b.tv_nsec))

tick-start : (timer : Timer) (e : Timespec) → (tick (start timer) e).t ≡ sub (start timer).t e
unfolding tick start
tick-start timer e = refl

running-tick-start : (timer : Timer) (e : Timespec) → (tick (start timer) e).running ≡ true
unfolding tick start
running-tick-start timer e = refl

-- After one step of any length, a timer that was just started has expired exactly if the step was
-- as long as the timer's period in milliseconds, or longer.
pub expired-tick-start_iff :
    (timer : Timer) (e : Timespec)
    → IsNormal e
    → (expired (tick (start timer) e) ≡ true) ↔ (pos (timer.ms * 1000000) ≤ℤ total e)
expired-tick-start_iff timer e h =
    let (lo, hi) = nsec-sub (start timer).t e (start-IsNormal timer) h in
    let test =
      expired-total_iff (tick (start timer) e) (running-tick-start timer e)
        (rw (tick-start timer e) lo) (rw (tick-start timer e) hi) in
    let left : total (tick (start timer) e).t ≡ pos (timer.ms * 1000000) -ℤ total e =
      ap total (tick-start timer e)
      ∙ total-sub (start timer).t e (start-IsNormal timer) h
      ∙ ap (λ (x : ℤ). x -ℤ total e) (total-start timer) in
    (
      λ yes_expired. omega (
        arith,
        ap pos_part left,
        ap neg_part left,
        test.0 yes_expired,
        -ℤ_parts (pos (timer.ms * 1000000)) (total e),
      ),
      λ long. test.1 (
          omega (
            arith,
            ap pos_part left,
            ap neg_part left,
            -ℤ_parts (pos (timer.ms * 1000000)) (total e),
          )),
    )
