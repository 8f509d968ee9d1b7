-- ===== src/Aprs/Sound.antt =====
-- The frame of the packet that is being read.
use patty.Prelude.{All, Bool, List, [], arith, false, length-append, true, ◌++◌, ◌<◌, ◌∙◌, ◌∷◌}
use patty.Frame.{Addr, Frame, max_hops}
use patty.Aprs.Encoded.{IsSound, IsWhole}
use patty.Aprs.{Aprs, Target, put_addr, to_body, to_dest, to_repeater, to_src, ui_frame}

All-snoc :
    {A : Type 0} (P : A → Type 0) (xs : List A) (x : A) → All P xs → P x → All P (xs ++ (x ∷ []))
All-snoc P [] x h p = (p, tt)
All-snoc P (y ∷ xs) x (q, h) p = (q, All-snoc P xs x h p)

-- There is room for a repeater where one is put.
abbrev pub HasRoom : Target → Frame → Type 0
HasRoom to_repeater frame = frame.hops < max_hops
HasRoom _ frame = Unit {0}

pub put_addr-IsSound :
    (target : Target) (frame : Frame) (addr : Addr)
    → IsSound frame
    → HasRoom target frame
    → IsWhole addr
    → IsSound (put_addr target frame addr)
put_addr-IsSound to_src frame addr h r w = record {
  dest_is = h.dest_is;
  src_is = w;
  hops_are = h.hops_are;
  hops_is = h.hops_is;
  hops_fit = h.hops_fit;
  format_is = h.format_is;
}
put_addr-IsSound to_dest frame addr h r w = record {
  dest_is = w;
  src_is = h.src_is;
  hops_are = h.hops_are;
  hops_is = h.hops_is;
  hops_fit = h.hops_fit;
  format_is = h.format_is;
}
put_addr-IsSound to_repeater frame addr h r w = record {
  dest_is = h.dest_is;
  src_is = h.src_is;
  hops_are = All-snoc IsWhole frame.repeaters addr h.hops_are w;
  hops_is = length-append frame.repeaters (addr ∷ []) ∙ omega (arith, h.hops_is);
  hops_fit = omega (arith, r);
  format_is = h.format_is;
}

pub to_body-HasRoom :
    (ends : Bool) (a : Aprs) → a.frame.hops < max_hops → HasRoom to_repeater (to_body ends a).frame
to_body-HasRoom true a h = h
to_body-HasRoom false a h = h

-- The frame of a packet.
pub ui_frame-IsSound : (a : Aprs) → IsSound a.frame → IsSound (ui_frame a)
ui_frame-IsSound a h = record {
  dest_is = h.dest_is;
  src_is = h.src_is;
  hops_are = h.hops_are;
  hops_is = h.hops_is;
  hops_fit = h.hops_fit;
  format_is = h.format_is;
}
