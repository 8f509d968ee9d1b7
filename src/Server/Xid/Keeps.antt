-- ===== src/Server/Xid/Keeps.antt =====
-- An established socket under handle_xid of server.c.
use patty.Prelude.{Bool-cases, List, if◌then◌else◌, inl, inr, true, ℕ, ◌≡◌}
use patty.Frame.{Frame}
use patty.Frame.Xid.{decode_xid}
use patty.Result.{Result, err, fault, ok}
use patty.Sock.{Sock, established}
use patty.Sock.Params.{Params}
use patty.Server.{Link}
use patty.Server.Action.{after, done, lift, link, ◌>>=◌}
use patty.Server.Action.Keeps.{Leaves}
use patty.Server.Reply.{addr_match}
use patty.Server.Reply.Keeps.{reply_dm-Keeps}
use patty.Server.Xid.{handle_xid, xid_answer, xid_on}

module _ (P : Sock → Type 0) (l : Link) where
  xid_answer_kept :
      (frame : Frame) (decoded : Result (Params × ℕ))
      → l.live ≡ true
      → l.sock.state ≡ established
      → P l.sock
      → P
          (after
            (decoded, l)
            (λ params.
              if l.live
              then xid_answer frame params.0 l.sock.state
              else xid_on frame params.0 l.listener)).1.sock
  unfolding xid_answer
  xid_answer_kept frame (ok params) live state h =
      simp (live, state) ((reply_dm-Keeps {P = P} frame 1).keep l h)
  xid_answer_kept frame (err e) live state h = h
  xid_answer_kept frame fault live state h = h

  pub handle_xid-Leaves :
      (params : Params) (frame : Frame) (buf : List ℕ) (offset len : ℕ)
      → l.live ≡ true
      → l.sock.state ≡ established
      → P l.sock
      → Leaves P l (handle_xid params frame buf offset len)
  unfolding handle_xid ◌>>=◌ link lift done
  handle_xid-Leaves params frame buf offset len live state h =
      elim (Bool-cases (addr_match l.iface frame.dest)) [
        | inl e ↦ record {
          left = rw e (xid_answer_kept frame (decode_xid params buf offset len) live state h);
        }
        | inr e ↦ record { left = rw e h }
      ]
