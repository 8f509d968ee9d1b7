-- ===== src/Aprs/Bounds.antt =====
-- The arrays of the APRS-IS interface: what is stored fits.
use patty.Prelude.{
  List, [], arith, false, length, refl, suc, zero, ℕ, ◌+◌, ◌-◌, ◌<◌, ◌∷◌, ◌≡◌, ◌≢◌, ◌≤◌,
}
use patty.Result.{Result, fault, ok, read}
use patty.Aprs.Encoded.{IsSound, header_max}
use patty.Aprs.Rounds.{InBounds, Within, is_outside, round-Within, within}
use patty.Aprs.{
  Aprs, Turn, done, drain, drain_end, drain_loop, drop_line, error, flush, next, next_round,
  outside, round, zero_frame,
}

read-in_range : (buf : List ℕ) (i : ℕ) → i < length buf → (c : ℕ) × (read buf i ≡ ok c)
read-in_range [] i h = absurd (omega arith)
read-in_range (b ∷ buf) zero h = (b, refl)
read-in_range (b ∷ buf) (suc i) h = read-in_range buf i (omega arith)

-- The loop has ended, with no access outside of an array.
data Ends : Turn × Aprs → Type 0 where
  ends : (turn : Turn) (a : Aprs) → is_outside turn ≡ false → InBounds 0 a → Ends (turn, a)

InBounds-end : {left : ℕ} (a : Aprs) → InBounds left a → InBounds 0 a
InBounds-end a h = record {
  call_fits = h.call_fits;
  body_fits = h.body_fits;
  frame_is = h.frame_is;
  buf_is = h.buf_is;
  read_fits = omega (arith, h.read_fits);
  len_fits = h.len_fits;
}

next_round-Within :
    {left : ℕ} (t : Turn × Aprs) (f : Aprs → Turn × Aprs)
    → Within left t
    → ((a : Aprs) → InBounds left a → Ends (f a))
    → Ends (next_round t f)
next_round-Within _ f (within next a e h) g = g a h
next_round-Within _ f (within done a e h) g = ends done a e (InBounds-end a h)
next_round-Within _ f (within drop_line a e h) g = ends drop_line a e (InBounds-end a h)
next_round-Within _ f (within (error k) a e h) g = ends (error k) a e (InBounds-end a h)
next_round-Within _ f (within outside a e h) g = cc

-- One character on.
InBounds-step :
    {left : ℕ} (a : Aprs)
    → InBounds (suc left) a
    → InBounds left (record a { offset_i = a.offset_i + 1 })
InBounds-step a h = record {
  call_fits = h.call_fits;
  body_fits = h.body_fits;
  frame_is = h.frame_is;
  buf_is = h.buf_is;
  read_fits = omega (arith, h.read_fits);
  len_fits = h.len_fits;
}

drain_loop-Ends :
    (len left : ℕ) (a : Aprs) → header_max ≤ len → InBounds left a → Ends (drain_loop len left a)
unfolding drain_loop
drain_loop-Ends len zero a room h = ends done a refl h
drain_loop-Ends len (suc left) a room h =
    let (c, e) = read-in_range a.rx_buf a.offset_i (omega (arith, h.buf_is, h.read_fits)) in
    rw e (
      next_round-Within (round len a.state (record a { offset_i = a.offset_i + 1 }) c)
        (drain_loop len left)
        (round-Within len a.state (record a { offset_i = a.offset_i + 1 }) c room
          (InBounds-step a h))
        λ b k. drain_loop-Ends len left b room k)

zero_frame-IsSound : IsSound zero_frame
zero_frame-IsSound = record {
  dest_is = refl;
  src_is = refl;
  hops_are = tt;
  hops_is = refl;
  hops_fit = omega arith;
  format_is = refl;
}

flush-InBounds : (a : Aprs) → InBounds 0 a → InBounds 0 (flush a).1
unfolding flush
flush-InBounds a h = record {
  call_fits = omega arith;
  body_fits = omega arith;
  frame_is = zero_frame-IsSound;
  buf_is = h.buf_is;
  read_fits = omega (arith, h.len_fits);
  len_fits = h.len_fits;
}

-- Of a call of drain: it comes back, and leaves the reader in bounds.
pub record Drained (after : Result ℕ × Aprs) : Type 0 where
  pub comes_back : after.0 ≢ fault
  pub in_bounds : InBounds 0 after.1

drain_end-Drained : (start : ℕ) (t : Turn × Aprs) → Ends t → Drained (drain_end start t)
unfolding drain_end
drain_end-Drained start _ (ends next a e h) = record { comes_back = λ k. cc; in_bounds = h }
drain_end-Drained start _ (ends done a e h) = record { comes_back = λ k. cc; in_bounds = h }
drain_end-Drained start _ (ends drop_line a e h) = record {
  comes_back = λ k. cc;
  in_bounds =
      flush-InBounds (record a { dropped = a.dropped + 1 })
        (record {
          call_fits = h.call_fits;
          body_fits = h.body_fits;
          frame_is = h.frame_is;
          buf_is = h.buf_is;
          read_fits = h.read_fits;
          len_fits = h.len_fits;
        });
}
drain_end-Drained start _ (ends (error k) a e h) = record { comes_back = λ m. cc; in_bounds = h }
drain_end-Drained start _ (ends outside a e h) = cc

-- While no read has failed, and with a buffer of the caller that has room for the address and control
-- fields of a frame: whatever characters have been read, drain comes back without an access outside
-- the arrays rx_buf, call, body and repeaters or the caller's buffer, and leaves the reader such that
-- this holds of the next call.
pub drain-Drained : (a : Aprs) (len : ℕ) → InBounds 0 a → header_max ≤ len → Drained (drain a len)
unfolding drain
drain-Drained a len h room = drain_end-Drained a.offset_i _ (
    drain_loop-Ends len (a.readlen - a.offset_i) a room (record {
      call_fits = h.call_fits;
      body_fits = h.body_fits;
      frame_is = h.frame_is;
      buf_is = h.buf_is;
      read_fits = omega (arith, h.read_fits, h.len_fits);
      len_fits = h.len_fits;
    }))
