-- ===== src/Aprs/Tests.antt =====
-- Tests of the APRS-IS line reader.
use patty.Prelude.{List, [], arith, refl, some, ℕ, ◌++◌, ◌∷◌, ◌≡◌}
use patty.Result.{ok}
use patty.Callsign.{pton}
use patty.Frame.Control.{encode}
use patty.Frame.Address.{encode_address}
use patty.Aprs.{Aprs, drain, fill, flush, fresh}
use patty.Aprs.Bounds.{Drained, drain-Drained}
use patty.Aprs.Rounds.{InBounds}
use patty.Aprs.Rest.{drain-flush}

-- A>B:hi, twice
abbrev line : List ℕ
line = b'A' ∷ b'>' ∷ b'B' ∷ b':' ∷ b'h' ∷ b'i' ∷ b'\r' ∷ b'\n' ∷ []

abbrev filled : Aprs
filled = (fill fresh (some (line ++ line))).1

filled-InBounds : InBounds 0 filled
unfolding fill
filled-InBounds = record {
  call_fits = omega arith;
  body_fits = omega arith;
  frame_is = record {
    dest_is = refl;
    src_is = refl;
    hops_are = tt;
    hops_is = refl;
    hops_fit = omega arith;
    format_is = refl;
  };
  buf_is = refl;
  read_fits = omega arith;
  len_fits = omega arith;
}

drain-Drained_example : Drained (drain filled 71)
drain-Drained_example = drain-Drained filled 71 filled-InBounds (omega arith)

-- The first packet takes eight characters, and gives a frame of eighteen bytes.
first_packet : ((drain filled 71).0 ≡ ok 8) × ((drain filled 71).1.encoded ≡ some 18)
unfolding drain fill pton encode encode_address
first_packet = (refl, refl)

drain-flush_example : drain (flush (drain filled 71).1).1 71 ≡ (ok 0, (flush (drain filled 71).1).1)
drain-flush_example = drain-flush (drain filled 71).1 71
