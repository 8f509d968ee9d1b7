-- ===== src/Timer/Tests.antt =====
-- The theorems on timers at concrete inputs, and the runs that show what they mean.
use patty.Prelude.{false, refl, ◌≡◌}
use patty.Prelude.Int.{negsuc, pos, ◌-ℤ◌}
use patty.Timer.{Timer, Timespec, start, sub, tick}

-- The period of timer T1.
abbrev t1 : Timer
t1 = record { ms = 3000; t = record { tv_sec = pos 0; tv_nsec = pos 0 }; running = false }

abbrev six_tenths : Timespec
six_tenths = record { tv_sec = pos 0; tv_nsec = pos 600_000_000 }

abbrev five_seconds : Timespec
five_seconds = record { tv_sec = pos 5; tv_nsec = pos 0 }

-- Two steps of 0.6 s leave 3.8 s of 3 s.
two_steps :
    (tick (tick (start t1) six_tenths) six_tenths).t
    ≡ record { tv_sec = pos 4; tv_nsec = negsuc 199_999_999 }
unfolding tick start sub ◌-ℤ◌
two_steps = refl
