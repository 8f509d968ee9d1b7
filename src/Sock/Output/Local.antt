-- ===== src/Sock/Output/Local.antt =====
-- The fields of a socket that the sends of sock.c look at.
use patty.Prelude.{refl, ℕ, ◌≡◌}
use patty.Timer.{Timer}
use patty.Sock.{Sock}
use patty.Sock.Output.{encode_address, frame_send, send_disc}

-- A DISC frame is the same whatever the timers and the retries.
pub send_disc-timers :
    (sock : Sock) (t1 t2 t3 : Timer) (retries pf : ℕ)
    → send_disc (record sock { timer_t1 = t1; timer_t2 = t2; timer_t3 = t3; retries = retries }) pf
      ≡ send_disc sock pf
unfolding send_disc frame_send encode_address
send_disc-timers sock t1 t2 t3 retries pf = refl
