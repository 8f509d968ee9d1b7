-- ===== src/Server/Connect/Keeps.antt =====
-- The sequence numbers of an established socket under the frames of server.c that set up and end a
-- link.
use patty.Prelude.{
  Bool-cases, Option, false, inl, inr, length-replicate, none, some, subst, true, ℕ, ◌<◌, ◌==◌, ◌≡◌,
}
use patty.Frame.{Frame}
use patty.Sock.{
  Sock, State, empty_slot, established, init_bufs, pending_connect, pending_disconnect, reset,
  slot_count,
}
use patty.Result.{econnrefused}
use patty.Sock.Window.Pending.{HasSlots}
use patty.Sock.Window.Invariant.{InRange, reset_kept}
use patty.Server.{Link}
use patty.Server.Action.{link, modify, pure, with_unit, ◌>>=◌}
use patty.Server.Action.Keeps.{
  Keeps, Leaves, bind-Keeps, call-Keeps, done-Keeps, if-Keeps, link-Keeps, modify-Keeps,
  on_sock-Keeps, send-Keeps, then-Keeps, update-Keeps, watch-Keeps,
}
use patty.Server.Life.Keeps.{Ready, sock_close-Keeps, sock_save-Keeps}
use patty.Server.Reply.{addr_match}
use patty.Server.Reply.Keeps.{
  reply_dm-Keeps, reply_test-Keeps, reply_ua-Keeps, respond_connect-Keeps,
}
use patty.Server.Connect.{
  accepting, again, disc_by_state, dm_by_state, frmr_by_state, handle_disc, handle_dm, handle_frmr,
  handle_sabm, handle_test, handle_ua, is_listening, linked, realloc_bufs, reset_sock,
  sabm_by_state, sabm_on, ua_by_state,
}

with_unit-Ready :
    (nr : ℕ) (sock next : Sock) (a : Unit {0})
    → with_unit (reset sock) ≡ some (next, a)
    → Ready nr sock
    → Ready nr next
unfolding with_unit Ready
with_unit-Ready nr sock next a e h =
    let found = reset_kept sock h.0 in
    let same : found.0 ≡ next = after_reset (reset sock) found.1.0 e in
    subst (λ (s : Sock). InRange s × (nr < slot_count s.mode)) same (found.1.1, rw found.1.2 h.1)
  where
    after_reset :
        (out : Option Sock) {one two : Sock} {u : Unit {0}}
        → out ≡ some one
        → with_unit out ≡ some (two, u)
        → one ≡ two
    after_reset none p q = cc
    after_reset (some s) p q = cc

reset_sock-Keeps : (nr : ℕ) → Keeps (Ready nr) reset_sock
unfolding reset_sock
reset_sock-Keeps nr = update-Keeps (λ sock next a. with_unit-Ready nr sock next a)

again-Keeps : (nr : ℕ) → Keeps (Ready nr) (modify again)
unfolding Ready InRange HasSlots again
again-Keeps nr = modify-Keeps again (λ sock h. h)

frmr_by_state-Keeps : (nr : ℕ) (state : State) → Keeps (Ready nr) (frmr_by_state state)
unfolding frmr_by_state
frmr_by_state-Keeps nr pending_connect = then-Keeps (again-Keeps nr) (send-Keeps _)
frmr_by_state-Keeps nr established = reset_sock-Keeps nr
frmr_by_state-Keeps nr _ = done-Keeps

pub handle_frmr-Keeps : (nr : ℕ) → Keeps (Ready nr) handle_frmr
unfolding handle_frmr
handle_frmr-Keeps nr =
    on_sock-Keeps (bind-Keeps link-Keeps (λ l. frmr_by_state-Keeps nr l.sock.state))

pub handle_test-Keeps : {P : Sock → Type 0} (frame : Frame) → Keeps P (handle_test frame)
unfolding handle_test
handle_test-Keeps frame =
    bind-Keeps link-Keeps
      (λ l. if-Keeps (addr_match l.iface frame.dest) (reply_test-Keeps frame) done-Keeps)

init_bufs-Ready : (nr : ℕ) (sock : Sock) → Ready nr sock → Ready nr (init_bufs sock)
unfolding init_bufs Ready InRange HasSlots
init_bufs-Ready nr sock h =
    ((h.0.0, length-replicate (slot_count sock.mode) empty_slot, h.0.2, h.0.3, h.0.4), h.1)

ua_by_state-Keeps :
    (frame : Frame) (nr : ℕ) (state : State) → Keeps (Ready nr) (ua_by_state frame state)
unfolding ua_by_state realloc_bufs linked Ready InRange HasSlots
ua_by_state-Keeps frame nr pending_connect =
    then-Keeps (then-Keeps call-Keeps (modify-Keeps init_bufs (init_bufs-Ready nr))) (
      then-Keeps (modify-Keeps linked (λ sock h. h))
        (then-Keeps sock_save-Keeps (then-Keeps (watch-Keeps true) (respond_connect-Keeps none))))
ua_by_state-Keeps frame nr pending_disconnect = sock_close-Keeps
ua_by_state-Keeps frame nr established = done-Keeps
ua_by_state-Keeps frame nr _ = reply_dm-Keeps frame 1

pub handle_ua-Keeps : (frame : Frame) (nr : ℕ) → Keeps (Ready nr) (handle_ua frame)
unfolding handle_ua
handle_ua-Keeps frame nr = bind-Keeps link-Keeps (λ l.
    if-Keeps (addr_match l.iface frame.dest)
      (if-Keeps l.live (ua_by_state-Keeps frame nr l.sock.state) (reply_dm-Keeps frame 1))
      done-Keeps)

dm_by_state-Keeps : (nr : ℕ) (state : State) → Keeps (Ready nr) (dm_by_state state)
unfolding dm_by_state Ready InRange HasSlots
dm_by_state-Keeps nr pending_connect =
    then-Keeps (reset_sock-Keeps nr) (respond_connect-Keeps (some econnrefused))
dm_by_state-Keeps nr pending_disconnect = then-Keeps (modify-Keeps _ (λ sock h. h)) sock_close-Keeps
dm_by_state-Keeps nr _ = done-Keeps

pub handle_dm-Keeps : (nr : ℕ) → Keeps (Ready nr) handle_dm
unfolding handle_dm
handle_dm-Keeps nr = on_sock-Keeps (bind-Keeps link-Keeps (λ l. dm_by_state-Keeps nr l.sock.state))

disc_by_state-Keeps :
    {P : Sock → Type 0} (frame : Frame) (state : State) → Keeps P (disc_by_state frame state)
unfolding disc_by_state
disc_by_state-Keeps frame established = then-Keeps sock_close-Keeps (reply_ua-Keeps frame 1)
disc_by_state-Keeps frame pending_disconnect = done-Keeps
disc_by_state-Keeps frame _ = reply_dm-Keeps frame 1

pub handle_disc-Keeps : {P : Sock → Type 0} (frame : Frame) → Keeps P (handle_disc frame)
unfolding handle_disc
handle_disc-Keeps frame =
    bind-Keeps link-Keeps
      (λ l. if-Keeps l.live (disc_by_state-Keeps frame l.sock.state) (reply_dm-Keeps frame 1))

-- A SABM or SABME frame on an established link.
sabm_established-Keeps :
    (frame : Frame) (nr : ℕ) → Keeps (Ready nr) (sabm_by_state frame false established)
unfolding sabm_by_state
sabm_established-Keeps frame nr =
    then-Keeps (reset_sock-Keeps nr) (if-Keeps (frame.pf == 1) (reply_ua-Keeps frame 1) done-Keeps)

sabm_on-established :
    (frame : Frame) (listener : Option Sock) (nr : ℕ) (l : Link)
    → l.live ≡ true
    → l.sock.state ≡ established
    → Ready nr l.sock
    → Ready nr (sabm_on frame listener l).1.sock
unfolding sabm_on accepting ◌>>=◌ link pure
sabm_on-established frame none nr l live state h = (reply_dm-Keeps {P = Ready nr} frame 1).keep l h
sabm_on-established frame (some listener) nr l live state h =
    elim (Bool-cases (is_listening listener)) [
      | inl e ↦ simp (e, live, state) ((sabm_established-Keeps frame nr).keep l h)
      | inr e ↦ rw e ((reply_dm-Keeps {P = Ready nr} frame 1).keep l h)
    ]

pub handle_sabm-Leaves :
    (frame : Frame) (nr : ℕ) (l : Link)
    → l.live ≡ true
    → l.sock.state ≡ established
    → Ready nr l.sock
    → Leaves (Ready nr) l (handle_sabm frame)
unfolding handle_sabm ◌>>=◌ link
handle_sabm-Leaves frame nr l live state h = record {
  left = sabm_on-established frame l.listener nr l live state h;
}
