-- ===== src/Server/Polls/Seconds.antt =====
-- How long a link waits for a peer that is silent: the select of patty_ax25_server_event_handle, which
-- waits a second at most, and timer T1.
use patty.Prelude.{true, ℕ, ◌*◌, ◌-◌, ◌/◌, ◌<◌, ◌≡◌, ◌≤◌}
use patty.Prelude.Int.{neg_part, pos, pos_part, ◌≤ℤ◌}
use patty.Timer
use patty.Timer.{Timer, Timespec}

-- The time of a round in which select came to its timeout: a second, and at most a millisecond more.
abbrev pub IsTimeout : Timespec → Type 0
IsTimeout e = (e.tv_sec ≡ pos 1) × (pos 0 ≤ℤ e.tv_nsec) × (e.tv_nsec ≤ℤ pos 1_000_000)

-- A timer of `p` whole seconds that has `s` of them left.
record On (p s : ℕ) (t : Timer.Timer) : Type 0 where
  period : t.ms / 1000 ≡ p
  on : t.running ≡ true
  seconds : t.t.tv_sec ≡ pos s
  left : s ≤ p
  late : neg_part t.t.tv_nsec ≤ (p - s) * 1_000_000
  below : pos_part t.t.tv_nsec < 1_000_000_000
