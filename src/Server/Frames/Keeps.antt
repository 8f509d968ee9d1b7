-- ===== src/Server/Frames/Keeps.antt =====
-- The sequence numbers of an established socket under handle_frame of server.c.
use patty.Prelude.{List, true, ℕ, ◌==◌, ◌||◌, ◌≡◌}
use patty.Frame.Control.Bounds.{BelowAt}
use patty.Result.{Result, Yields, err, fault, ok, ok-Yields}
use patty.Frame.{Frame}
use patty.Frame.Kind
use patty.Sock.{established, slot_count}
use patty.Sock.Params.{Params}
use patty.Sock.Window.Invariant.{InRange}
use patty.Server.{Link}
use patty.Server.Action.{emit, lift}
use patty.Server.Action.Keeps.{Keeps-Leaves, Leaves, done-Keeps, if-Leaves}
use patty.Server.Life.Keeps.{Ready}
use patty.Server.Ack.Keeps.{handle_rej-Keeps, handle_rnr-Keeps, handle_rr-Keeps, handle_srej-Keeps}
use patty.Server.Info.Keeps.{handle_i-Keeps, handle_ui-Keeps}
use patty.Server.Connect.Keeps.{
  handle_disc-Keeps, handle_dm-Keeps, handle_frmr-Keeps, handle_sabm-Leaves, handle_test-Keeps,
  handle_ua-Keeps,
}
use patty.Server.Xid.Keeps.{handle_xid-Leaves}
use patty.Server.Decode.{decode_frame, decode_frame-Below}
use patty.Server.Frames.{dispatch, handle_frame, handled}

pub dispatch-Leaves :
    (params : Params) (frame : Frame) (buf : List ℕ) (offset len : ℕ) (l : Link)
    → l.live ≡ true
    → l.sock.state ≡ established
    → Ready frame.nr l.sock
    → Leaves (Ready frame.nr) l (dispatch params frame buf offset len)
unfolding dispatch
dispatch-Leaves params frame buf offset len l live state h =
    if-Leaves (frame.kind == Kind.i) (Keeps-Leaves h (handle_i-Keeps frame)) (
      if-Leaves (frame.kind == Kind.ui) (Keeps-Leaves h (handle_ui-Keeps frame)) (
        if-Leaves (frame.kind == Kind.rr) (Keeps-Leaves h (handle_rr-Keeps frame)) (
          if-Leaves (frame.kind == Kind.rnr) (Keeps-Leaves h (handle_rnr-Keeps frame)) (
            if-Leaves (frame.kind == Kind.rej) (Keeps-Leaves h (handle_rej-Keeps frame)) (
              if-Leaves (frame.kind == Kind.srej) (Keeps-Leaves h (handle_srej-Keeps frame)) (
                if-Leaves (frame.kind == Kind.xid)
                  (handle_xid-Leaves (Ready frame.nr) l params frame buf offset len live state h)
                  (if-Leaves (frame.kind == Kind.sabm || frame.kind == Kind.sabme)
                    (handle_sabm-Leaves frame frame.nr l live state h)
                    (if-Leaves (frame.kind == Kind.test) (Keeps-Leaves h (handle_test-Keeps frame))
                      (if-Leaves (frame.kind == Kind.ua)
                        (Keeps-Leaves h (handle_ua-Keeps frame frame.nr))
                        (if-Leaves (frame.kind == Kind.dm)
                          (Keeps-Leaves h (handle_dm-Keeps frame.nr))
                          (if-Leaves (frame.kind == Kind.disc)
                            (Keeps-Leaves h (handle_disc-Keeps frame))
                            (if-Leaves (frame.kind == Kind.frmr)
                              (Keeps-Leaves h (handle_frmr-Keeps frame.nr))
                              (Keeps-Leaves h done-Keeps)))))))))))))

handled-InRange :
    (params : Params) (buf : List ℕ) (len : ℕ) (l : Link) (out : Result (Frame × ℕ))
    → l.live ≡ true
    → l.sock.state ≡ established
    → Yields (BelowAt (slot_count l.sock.mode)) out
    → InRange l.sock
    → InRange (handled params buf len out l).1.sock
unfolding handled Ready emit lift
handled-InRange params buf len l (ok (f, offset)) live state below h =
    (dispatch-Leaves params f buf offset len l live state (h, ok-Yields (f, offset) below)).left.0
handled-InRange params buf len l (err e) live state below h = h
handled-InRange params buf len l fault live state below h = h

-- Whatever bytes an interface receives as a frame, and whatever the calls of the system come back
-- with, handle_frame leaves the sequence numbers of an established socket in the range of its mode,
-- with a slot for each.
pub handle_frame-InRange :
    (params : Params) (frame : Frame) (buf : List ℕ) (len : ℕ) (l : Link)
    → l.live ≡ true
    → l.sock.state ≡ established
    → InRange l.sock
    → InRange (handle_frame params frame buf len l).1.sock
unfolding handle_frame
handle_frame-InRange params frame buf len l live state =
    handled-InRange params buf len l (decode_frame l frame buf len) live state
      (decode_frame-Below l frame buf len live)
