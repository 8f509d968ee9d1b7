-- ===== src/Server/Info/Stream.antt =====
-- handle_i of server.c against its specification for a whole run of frames: a stream of bytes.
use patty.Prelude.{List, [], ap, ap₂, false, refl, sym, true, ℕ, ◌<◌, ◌==◌, ◌∙◌, ◌∷◌, ◌≡◌}
use patty.Result.{ok}
use patty.Frame.{Frame}
use patty.Frame.Control.{info_bytes}
use patty.Sock.{Mode, Sock, established, slot_count}
use patty.Sock.Window.{next_seq}
use patty.Sock.Window.Invariant.{InRange}
use patty.Server.{Event, Link, delivered}
use patty.Server.Action.{Step, done, ◌>>◌}
use patty.Server.Life.{is_established}
use patty.Server.Life.Keeps.{InRange-Ready, Ready}
use patty.Server.Info.{handle_i, proto_fragment}
use patty.Server.Info.Delivery.{handle_i_due}

-- The frames of a run, each with the bytes that it carries.
pub receive_run : List (Frame × List ℕ) → Step
receive_run [] = done
receive_run ((frame, bytes) ∷ rest) = handle_i frame >> receive_run rest

-- What one frame of a run has to be in mode `mode`, where `vr` is due.
pub record Due (mode : Mode) (vr : ℕ) (frame : Frame) (carried : List ℕ) : Type 0 where
  pub ns_is : frame.ns ≡ vr
  pub nr_is : frame.nr < slot_count mode
  pub proto_is : (frame.proto == proto_fragment) ≡ false
  pub info_is : info_bytes frame.info frame.infolen ≡ ok carried
  pub pf_is : frame.pf ≡ 0

-- The frames come in the order of their numbers, which wrap around.
pub data InOrder (mode : Mode) : ℕ → List (Frame × List ℕ) → Type 0 where
  no_more : {vr : ℕ} → InOrder mode vr []
  next_due :
      {vr : ℕ} {frame : Frame} {carried : List ℕ} {rest : List (Frame × List ℕ)}
      → Due mode vr frame carried
      → InOrder mode (next_seq mode vr) rest
      → InOrder mode vr ((frame, carried) ∷ rest)

-- The stream that the client gets, the latest write first.
abbrev pub stream_of : List (Frame × List ℕ) → List Event → List Event
stream_of [] events = events
stream_of ((frame, carried) ∷ rest) events = stream_of rest (delivered carried ∷ events)

-- The sequence number that is due behind a run.
abbrev pub vr_after : Mode → ℕ → List (Frame × List ℕ) → ℕ
vr_after mode vr [] = vr
vr_after mode vr (x ∷ rest) = vr_after mode (next_seq mode vr) rest

-- A run of I frames in the order of their numbers, of any length, with sequence numbers as their
-- N(R), without poll bits and segments, on an established link with its socket in range and whose
-- system calls succeed, is a stream of bytes: each frame's bytes are written to the client once
-- and in order, nothing else is done, and V(R) is the number behind the run.
pub receive_run-stream_of :
    (mode : Mode) (vr : ℕ) (frames : List (Frame × List ℕ)) (l : Link)
    → InOrder mode vr frames
    → l.live ≡ true
    → l.sock.state ≡ established
    → InRange l.sock
    → l.calls ≡ []
    → l.sock.mode ≡ mode
    → l.sock.vr ≡ vr
    → (next : Sock) × ((receive_run frames l
          ≡ (ok tt, record l { sock = next; events = stream_of frames l.events }))
        × (next.vr ≡ vr_after mode vr frames)
        × InRange next)
unfolding receive_run ◌>>◌ done
receive_run-stream_of mode vr [] l no_more live state h calls mode_is vr_is =
    (l.sock, (refl, vr_is, h))
receive_run-stream_of mode vr ((frame, carried) ∷ rest) l (next_due due more) live state h calls
      mode_is vr_is =
    let is_est : is_established l.sock.state ≡ true = ap is_established state in
    let ready_now : Ready frame.nr l.sock =
      InRange-Ready frame.nr mode l.sock h mode_is due.nr_is in
    let first =
      handle_i_due frame carried l live is_est ready_now calls due.proto_is due.info_is due.pf_is
        (due.ns_is ∙ sym vr_is) in
    let got = first.1.1 in
    let others =
      receive_run-stream_of mode (next_seq mode vr) rest
        (record l { sock = first.0; events = delivered carried ∷ l.events }) more live
        (got.state_now ∙ state) got.in_range calls (got.mode_now ∙ mode_is)
        (got.vr_now ∙ ap₂ next_seq mode_is vr_is) in
    (others.0, (rw first.1.0 others.1.0, others.1.1, others.1.2))
