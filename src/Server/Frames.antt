-- ===== src/Server/Frames.antt =====
-- What an interface receives: handle_frame and the loop of handle_iface of server.c.
pub mod Keeps
use patty.Prelude.{List, [], if◌then◌else◌, ℕ, ◌==◌, ◌||◌, ◌∷◌}
use patty.Result.{Result, err, fault, ok}
use patty.Frame.{Frame}
use patty.Frame.Kind
--use patty.Sock
use patty.Sock.Params.{Params}
use patty.Server.{dropped}
use patty.Server.Action.{Step, done, emit, lift, ◌>>◌}
use patty.Server.Decode.{decode_frame}
use patty.Server.Ack.{handle_rej, handle_rnr, handle_rr, handle_srej}
use patty.Server.Info.{handle_i, handle_ui}
use patty.Server.Connect.{handle_disc, handle_dm, handle_frmr, handle_sabm, handle_test, handle_ua}
use patty.Server.Xid.{handle_xid}

-- The switch of handle_frame.
pub dispatch : Params → Frame → List ℕ → ℕ → ℕ → Step
dispatch params frame buf offset len =
    if frame.kind == Kind.i
    then handle_i frame
    else if frame.kind == Kind.ui
    then handle_ui frame
    else if frame.kind == Kind.rr
    then handle_rr frame
    else if frame.kind == Kind.rnr
    then handle_rnr frame
    else if frame.kind == Kind.rej
    then handle_rej frame
    else if frame.kind == Kind.srej
    then handle_srej frame
    else if frame.kind == Kind.xid
    then handle_xid params frame buf offset len
    else if frame.kind == Kind.sabm || frame.kind == Kind.sabme
    then handle_sabm frame
    else if frame.kind == Kind.test
    then handle_test frame
    else if frame.kind == Kind.ua
    then handle_ua frame
    else if frame.kind == Kind.dm
    then handle_dm
    else if frame.kind == Kind.disc
    then handle_disc frame
    else if frame.kind == Kind.frmr
    then handle_frmr
    else done

-- A frame that cannot be decoded is dropped.
pub handled : Params → List ℕ → ℕ → Result (Frame × ℕ) → Step
unfolding dispatch
handled params buf len (ok (frame, offset)) = dispatch params frame buf offset len
handled params buf len (err e) = emit dropped
handled params buf len fault = lift fault

-- handle_frame. A frame of another pair of addresses has a link of its own.
pub handle_frame : Params → Frame → List ℕ → ℕ → Step
unfolding handled
handle_frame params frame buf len l = handled params buf len (decode_frame l frame buf len) l

-- The frames that the loop of handle_iface takes from the driver, each with its array and length.
pub handle_frames : Params → Frame → List (List ℕ × ℕ) → Step
unfolding handle_frame
handle_frames params frame [] = done
handle_frames params frame ((buf, len) ∷ rest) =
    handle_frame params frame buf len >> handle_frames params frame rest
