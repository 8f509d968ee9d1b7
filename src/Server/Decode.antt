-- ===== src/Server/Decode.antt =====
-- How handle_frame of server.c decodes a frame.
use patty.Prelude.{List, if◌then◌else◌, refl, subst, true, ℕ, ◌≡◌}
use patty.Result.{
  Result, Yields, any-Yields, bind-Yields, fault, if-Yields, ok, some_value, undefined, ◌>>=◌,
}
use patty.Frame.{Format, Frame, extended, normal}
use patty.Frame.Address.{decode_address}
use patty.Frame.Control.{decode_control}
use patty.Frame.Control.Bounds.{BelowAt, decode_control-Below, seq_count}
use patty.Sock.{Mode, dm, is_sabme, sabm, sabme, slot_count}
use patty.Server.{Link}

-- The format that the control field is read in: the mode of the socket that the tables hold.
pub format_of : Link → Result Format
format_of l =
    if l.live
    then if l.freed then fault else ok (if is_sabme l.sock.mode then extended else normal)
    else ok normal

-- The frame, and the offset behind its control field. `frame` is what its memory holds before.
pub decode_frame : Link → Frame → List ℕ → ℕ → Result (Frame × ℕ)
unfolding format_of
decode_frame l frame buf len = decode_address frame buf len >>= λ addressed.
    format_of l >>= λ format. decode_control addressed.0 format buf addressed.1 len

format_of-live :
    (l : Link)
    → l.live ≡ true
    → Yields (λ format. seq_count format ≡ slot_count l.sock.mode) (format_of l)
unfolding format_of
format_of-live l live = rw live (if-Yields l.freed undefined (some_value _ (by_mode l.sock.mode)))
  where
    by_mode :
        (mode : Mode) → seq_count (if is_sabme mode then extended else normal) ≡ slot_count mode
    by_mode dm = refl
    by_mode sabm = refl
    by_mode sabme = refl

-- The N(R) of a frame for a socket in the tables is a sequence number of its mode.
pub decode_frame-Below :
    (l : Link) (frame : Frame) (buf : List ℕ) (len : ℕ)
    → l.live ≡ true
    → Yields (BelowAt (slot_count l.sock.mode)) (decode_frame l frame buf len)
unfolding decode_frame
decode_frame-Below l frame buf len live =
    let address = decode_address frame buf len in
    bind-Yields address _ (any-Yields address) (λ addressed x.
      bind-Yields (format_of l) _ (format_of-live l live) (λ format same.
        subst (λ n. Yields (BelowAt n) (decode_control addressed.0 format buf addressed.1 len)) same
          (decode_control-Below addressed.0 format buf addressed.1 len)))
