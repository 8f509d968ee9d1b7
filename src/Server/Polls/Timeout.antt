-- ===== src/Server/Polls/Timeout.antt =====
-- What becomes of a link whose peer does not answer.
use patty.Prelude.{
  Bool, Bool-cases, List, [], ap, arith, false, if◌then◌else◌, inl, inr, ltb, min, refl, subst, suc,
  sym, true, zero, ℕ, ◌&&◌, ◌<◌, ◌==◌, ◌^◌, ◌∙◌, ◌∷◌, ◌≡◌,
}
use patty.Result.{Result, ok}
use patty.Timer
use patty.Timer.{Timer, Timespec, expired, start, tick}
use patty.Sock.{Sock, State, pending_disconnect}
use patty.Frame.{sub_size}
use patty.Sock.Output.{send_disc}
use patty.Sock.Output.Local.{send_disc-timers}
use patty.Server.{Event, Link, sent}
use patty.Server.Action.{Step, call, done, emit, lift, link, modify, send, transmit, ◌>>=◌, ◌>>◌}
use patty.Server.Action.Silent.{called-none}
use patty.Server.Serve.{not_ready, serve, start_t1}
use patty.Server.Life.{deletes_remote, sock_close}
use patty.Server.Polls.{handle_sock_stream, has_t1, on_t1, retrying, spend, tick_all, without_t1}

-- Rounds of the server's loop, by the times that pass: those of a socket that is in its tables, with
-- nothing to read from its client, since sock_shutdown has taken the descriptor off those that the
-- server reads.
pub rounds : List Timespec → Step
rounds [] = done
rounds (elapsed ∷ rest) =
    link >>= λ l. if l.freed then done else (handle_sock_stream elapsed not_ready >> rounds rest)

-- How timer T1 of such a socket stands after a round.
abbrev pub round_timer : Timer.Timer → Timespec → Timer.Timer
round_timer t elapsed =
    let next = Timer.tick t elapsed in if Timer.expired next then Timer.start next else next

-- In how many rounds it expires.
unfoldable pub fires : Timer.Timer → List Timespec → ℕ
fires t [] = 0
fires t (elapsed ∷ rest) =
    let more = fires (round_timer t elapsed) rest in
    if Timer.expired (Timer.tick t elapsed) then suc more else more

-- A link that waits for the answer to its DISC frame, with `n` retries left and `t` for timer T1.
pub record Waiting (t : Timer.Timer) (b : ℕ) (bs : List ℕ) (n : ℕ) (l : Link) : Type 0 where
  pub state_is : l.sock.state ≡ pending_disconnect
  pub freed_is : l.freed ≡ false
  pub retries_are : l.sock.retries ≡ n
  pub few : n < 2 ^ 64
  pub t1_is : l.sock.timer_t1 ≡ t
  pub disc_is : send_disc l.sock 1 ≡ ok (b ∷ bs)
  pub calls_are : l.calls ≡ []

-- The socket after a round with a retry.
abbrev retried : Timespec → Sock → Sock
retried elapsed sock = start_t1 (spend (tick_all elapsed sock))

spend-suc : (n : ℕ) → suc n < 2 ^ 64 → sub_size (suc n) 1 ≡ n
spend-suc n h = omega (arith, h)

-- The last two steps of a round on a link that waits.
t1_step :
    (state : State) (l : Link) (fired : Bool)
    → state ≡ pending_disconnect
    → Timer.expired l.sock.timer_t1 ≡ fired
    → (if has_t1 state && Timer.expired l.sock.timer_t1
          then on_t1 state
          else without_t1 state not_ready)
        l
      ≡ (if fired then retrying (send (λ sock. send_disc sock 1)) sock_close else done) l
unfolding on_t1 without_t1 serve
t1_step state l fired is_state fires =
    subst
      (λ s.
        (if has_t1 s && Timer.expired l.sock.timer_t1 then on_t1 s else without_t1 s not_ready) l
        ≡ (if fired then retrying (send (λ sock. send_disc sock 1)) sock_close else done) l)
      (sym is_state) (rw fires refl)

module _ (t : Timer.Timer) (b : ℕ) (bs : List ℕ) (elapsed : Timespec) where
  round_step :
      (l : Link) (n : ℕ) (fired : Bool)
      → Waiting t b bs n l
      → Timer.expired (Timer.tick t elapsed) ≡ fired
      → handle_sock_stream elapsed not_ready l
        ≡ (if fired then retrying (send (λ sock. send_disc sock 1)) sock_close else done)
            (record l { sock = tick_all elapsed l.sock })
  unfolding handle_sock_stream tick_all ◌>>=◌ ◌>>◌ link modify
  round_step l n fired w is =
      t1_step l.sock.state (record l { sock = tick_all elapsed l.sock }) fired w.state_is
        (ap (λ (x : Timer.Timer). Timer.expired (Timer.tick x elapsed)) w.t1_is ∙ is)

  round_waits :
      (l : Link) (n : ℕ)
      → Waiting t b bs n l
      → Timer.expired (Timer.tick t elapsed) ≡ false
      → handle_sock_stream elapsed not_ready l
        ≡ (ok tt, record l { sock = tick_all elapsed l.sock })
  unfolding done
  round_waits l n w is = round_step l n false w is

  waits-Waiting :
      (l : Link) (n : ℕ)
      → Waiting t b bs n l
      → Waiting (Timer.tick t elapsed) b bs n (record l { sock = tick_all elapsed l.sock })
  unfolding tick_all
  waits-Waiting l n w = record {
    state_is = w.state_is;
    freed_is = w.freed_is;
    retries_are = w.retries_are;
    few = w.few;
    t1_is = ap (λ (x : Timer.Timer). Timer.tick x elapsed) w.t1_is;
    disc_is = send_disc-timers l.sock _ _ _ l.sock.retries 1 ∙ w.disc_is;
    calls_are = w.calls_are;
  }

  round_retries :
      (l : Link) (n : ℕ)
      → Waiting t b bs (suc n) l
      → Timer.expired (Timer.tick t elapsed) ≡ true
      → handle_sock_stream elapsed not_ready l
        ≡ (ok tt, record l { sock = retried elapsed l.sock; events = sent (b ∷ bs) ∷ l.events })
  unfolding tick_all retrying spend ◌>>=◌ ◌>>◌ link modify send lift transmit call emit
  round_retries l n w is =
      let left : (l.sock.retries == 0) ≡ false = ground (arith, w.retries_are) in
      let disc : send_disc (retried elapsed l.sock) 1 ≡ ok (b ∷ bs) =
        send_disc-timers l.sock _ _ _ _ 1 ∙ w.disc_is in
      let ends = called-none l.calls (record l { sock = retried elapsed l.sock }) w.calls_are in
      round_step l (suc n) true w is ∙ rw (left, disc, ends) refl

  round_closes :
      (l : Link)
      → Waiting t b bs 0 l
      → Timer.expired (Timer.tick t elapsed) ≡ true
      → handle_sock_stream elapsed not_ready l ≡ (
        ok tt,
        record l {
          sock = spend (tick_all elapsed l.sock);
          live = false;
          freed = true;
          watched = false;
        },
      )
  unfolding tick_all retrying sock_close ◌>>=◌ ◌>>◌ link modify
  round_closes l w is =
      let none_left : (l.sock.retries == 0) ≡ true = ground (arith, w.retries_are) in
      let leaves : deletes_remote l.sock.state ≡ true = ap deletes_remote w.state_is in
      round_step l 0 true w is ∙ rw (none_left, leaves) refl

  retried-Waiting :
      (l : Link) (n : ℕ)
      → Waiting t b bs (suc n) l
      → Waiting
          (Timer.start (Timer.tick t elapsed))
          b
          bs
          n
          (record l { sock = retried elapsed l.sock; events = sent (b ∷ bs) ∷ l.events })
  unfolding tick_all spend
  retried-Waiting l n w = record {
    state_is = w.state_is;
    freed_is = w.freed_is;
    retries_are = ap (λ r. sub_size r 1) w.retries_are ∙ spend-suc n w.few;
    few = omega (arith, w.few);
    t1_is = ap (λ (x : Timer.Timer). Timer.start (Timer.tick x elapsed)) w.t1_is;
    disc_is = send_disc-timers l.sock _ _ _ _ 1 ∙ w.disc_is;
    calls_are = w.calls_are;
  }

-- What has been done after `n` more frames.
abbrev pub sends : ℕ → List ℕ → List Event → List Event
sends zero frame events = events
sends (suc n) frame events = sends n frame (sent frame ∷ events)

-- What is left of a link after rounds in which timer T1 has expired `k` times.
pub record Tried (n k : ℕ) (frame : List ℕ) (l after : Link) : Type 0 where
  pub freed_is : after.freed ≡ ltb n k
  pub live_is : after.live ≡ (if ltb n k then false else l.live)
  pub state_is : after.sock.state ≡ pending_disconnect
  pub events_are : after.events ≡ sends (min n k) frame l.events

rounds_freed : (passed : List Timespec) (l : Link) → l.freed ≡ true → rounds passed l ≡ (ok tt, l)
unfolding rounds link done ◌>>=◌
rounds_freed [] l h = refl
rounds_freed (e ∷ es) l h = rw h refl

round_then :
    (freed : Bool) (first rest : Step) (l m : Link) {r : Result (Unit {0}) × Link}
    → freed ≡ false
    → first l ≡ (ok tt, m)
    → rest m ≡ r
    → (if freed then done else (first >> rest)) l ≡ r
unfolding ◌>>◌
round_then true first rest l m h step k = cc
round_then false first rest l m h step k = rw step k

-- What rounds come to for every link that waits.
abbrev Ends : ℕ → List ℕ → List Timespec → Type 0
Ends b bs passed =
    (t : Timer.Timer) (n : ℕ) (l : Link)
    → Waiting t b bs n l
    → (after : Link) × ((rounds passed l ≡ (ok tt, after))
        × Tried n (fires t passed) (b ∷ bs) l after)

-- A round in which timer T1 does not expire, and one in which it does.
quiet_round :
    (b : ℕ) (bs : List ℕ) (e : Timespec) (es : List Timespec) (t : Timer.Timer) (n : ℕ) (l : Link)
    → Waiting t b bs n l
    → Timer.expired (Timer.tick t e) ≡ false
    → Ends b bs es
    → (after : Link) × ((rounds (e ∷ es) l ≡ (ok tt, after))
        × Tried n (fires t (e ∷ es)) (b ∷ bs) l after)
unfolding rounds fires link ◌>>=◌
quiet_round b bs e es t n l w quiet more =
    let (after, (run, tried)) = more (Timer.tick t e) n _ (waits-Waiting t b bs e l n w) in
    (
      after,
      (
        round_then l.freed (handle_sock_stream e not_ready) (rounds es) l _ w.freed_is
            (round_waits t b bs e l n w quiet) run,
        rw quiet (record {
          freed_is = tried.freed_is;
          live_is = tried.live_is;
          state_is = tried.state_is;
          events_are = tried.events_are;
        }),
      ),
    )

fired_round :
    (b : ℕ) (bs : List ℕ) (e : Timespec) (es : List Timespec) (t : Timer.Timer) (n : ℕ) (l : Link)
    → Waiting t b bs n l
    → Timer.expired (Timer.tick t e) ≡ true
    → Ends b bs es
    → (after : Link) × ((rounds (e ∷ es) l ≡ (ok tt, after))
        × Tried n (fires t (e ∷ es)) (b ∷ bs) l after)
unfolding rounds fires link ◌>>=◌ spend tick_all
fired_round b bs e es t zero l w fired more =
    let k = fires (Timer.start (Timer.tick t e)) es in
    let none_sent : min 0 (suc k) ≡ 0 = omega arith in
    let beyond : ltb 0 (suc k) ≡ true = ground arith in
    (
      _,
      (
        round_then l.freed (handle_sock_stream e not_ready) (rounds es) l _ w.freed_is
            (round_closes t b bs e l w fired) (rounds_freed es _ refl),
        rw fired (record {
          freed_is = sym beyond;
          live_is = rw beyond refl;
          state_is = w.state_is;
          events_are = rw none_sent refl;
        }),
      ),
    )
fired_round b bs e es t (suc n) l w fired more =
    let (after, (run, tried)) =
      more (Timer.start (Timer.tick t e)) n _ (retried-Waiting t b bs e l n w) in
    let k = fires (Timer.start (Timer.tick t e)) es in
    let one_more : min (suc n) (suc k) ≡ suc (min n k) = omega arith in
    let alike : ltb (suc n) (suc k) ≡ ltb n k = ground arith in
    (
      after,
      (
        round_then l.freed (handle_sock_stream e not_ready) (rounds es) l _ w.freed_is
            (round_retries t b bs e l n w fired) run,
        rw fired (record {
          freed_is = tried.freed_is ∙ sym alike;
          live_is = rw alike tried.live_is;
          state_is = tried.state_is;
          events_are = rw one_more tried.events_are;
        }),
      ),
    )

-- A link whose DISC frame is not answered, with `n` retries left: over rounds of any lengths, without
-- input from its client, the DISC frame is sent again each time that timer T1 expires, at most `n`
-- times, and the socket is taken out of the tables where it expires more often, and only there. The
-- DISC frame can be sent, and the system calls succeed.
pub rounds-Tried :
    (t : Timer.Timer) (b : ℕ) (bs : List ℕ) (n : ℕ) (l : Link) (passed : List Timespec)
    → Waiting t b bs n l
    → (after_it : Link) × ((rounds passed l ≡ (ok tt, after_it))
        × Tried n (fires t passed) (b ∷ bs) l after_it)
unfolding rounds fires done
rounds-Tried t b bs n l [] w =
    let none_sent : min n 0 ≡ 0 = omega arith in
    let within : ltb n 0 ≡ false = ground arith in
    (
      l,
      (
        refl,
        record {
          freed_is = w.freed_is ∙ sym within;
          live_is = rw within refl;
          state_is = w.state_is;
          events_are = rw none_sent refl;
        },
      ),
    )
rounds-Tried t b bs n l (e ∷ es) w = elim (Bool-cases (Timer.expired (Timer.tick t e))) [
  | inl fired ↦
      fired_round b bs e es t n l w fired (λ t' n' l' w'. rounds-Tried t' b bs n' l' es w')
  | inr quiet ↦
      quiet_round b bs e es t n l w quiet (λ t' n' l' w'. rounds-Tried t' b bs n' l' es w')
]
