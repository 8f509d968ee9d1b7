-- ===== src/Aprs/Rest.antt =====
-- What is left in the read buffer when a packet is taken.
use patty.Prelude.{ap, arith, ℕ, ◌-◌, ◌≡◌}
use patty.Result.{ok}
use patty.Aprs.{Aprs, drain, drain_end, drain_loop, flush}

-- Whatever the read buffer holds behind a packet, flush moves past it: the next call of drain takes
-- no character, leaves the reader as it is, and returns 0, so that further packets of the same read
-- are lost.
pub drain-flush : (a : Aprs) (len : ℕ) → drain (flush a).1 len ≡ (ok 0, (flush a).1)
unfolding drain flush drain_loop drain_end
drain-flush a len =
    let none_left : a.readlen - a.readlen ≡ 0 = omega arith in
    rw none_left (ap (λ n. (ok n, (flush a).1)) none_left)
