-- ===== src/Timer.antt =====
-- The timers of timer.c and timer.h.
pub mod Elapse
mod Tests
use patty.Prelude.{Bool, false, if◌then◌else◌, not, refl, true, ℕ, ◌%◌, ◌&&◌, ◌*◌, ◌/◌, ◌||◌, ◌≡◌}
use patty.Prelude.Int.{leb_ℤ, ltb_ℤ, pos, quot, rem, ℤ, ◌-ℤ◌}

-- `struct timespec`
pub record Timespec : Type 0 where
  pub tv_sec : ℤ
  pub tv_nsec : ℤ

-- `patty_timer`; of the flags only PATTY_TIMER_RUNNING is used.
pub record Timer : Type 0 where
  pub ms : ℕ
  pub t : Timespec
  pub running : Bool

abbrev pub nsec_per_sec : ℕ
nsec_per_sec = 1_000_000_000

-- patty_timer_init sets the period only.
pub init : Timer → ℕ → Timer
init timer ms = record timer { ms = ms }

pub is_running : Timer → Bool
is_running timer = timer.running

-- patty_timer_expired
unfoldable pub expired : Timer → Bool
expired timer =
    if not timer.running
    then false
    else ltb_ℤ timer.t.tv_sec (pos 0)
      || (leb_ℤ timer.t.tv_sec (pos 0)
          && leb_ℤ (pos 0) timer.t.tv_sec
          && leb_ℤ timer.t.tv_nsec (pos 0))

pub clear : Timer → Timer
clear timer = record timer { t = record { tv_sec = pos 0; tv_nsec = pos 0 }; running = false }

unfoldable pub start : Timer → Timer
start timer = record timer {
  t = record { tv_sec = pos (timer.ms / 1000); tv_nsec = pos (timer.ms % 1000 * 1000000) };
  running = true;
}

pub stop : Timer → Timer
stop timer = record timer { running = false }

-- patty_timer_sub: `a - b`. Both divisions round towards zero.
unfoldable pub sub : Timespec → Timespec → Timespec
sub a b =
    let nsec = a.tv_nsec -ℤ b.tv_nsec in
    record {
      tv_sec = a.tv_sec -ℤ b.tv_sec -ℤ quot nsec nsec_per_sec;
      tv_nsec = rem nsec nsec_per_sec;
    }

unfoldable pub tick : Timer → Timespec → Timer
unfolding sub
tick timer elapsed = if not timer.running then timer else record timer { t = sub timer.t elapsed }

-- A timer that is started again is as it was when it was started.
pub start-tick :
    (timer : Timer) (elapsed : Timespec) → start (tick (start timer) elapsed) ≡ start timer
unfolding start tick
start-tick timer elapsed = refl
