-- ===== src/Kiss/Tnc/Fends.antt =====
-- A FEND where the receiver waits for a command byte: kiss.h's PATTY_KISS_COMMAND keeps four bits,
-- so that the test of tnc.c for a second FEND never holds.
use patty.Prelude.{
  List, [], ap, append_assoc, arith, false, get_or, get_or-drop, length, length-drop, refl, some,
  suc, take, ℕ, ◌++◌, ◌+◌, ◌<◌, ◌∙◌, ◌∷◌, ◌≡◌,
}
use patty.Prelude.Int.{sub_ℕ, ℤ}
use patty.Kiss.{escape_of, fend}
use patty.Kiss.Send.{encode, escape}
use patty.Kiss.Command
use patty.Kiss.Tnc.{Tnc, again, drain, frame_body, frame_command, pending, round}
use patty.Kiss.Tnc.Frames.Body.{InBody, body_taken, drop-next, head_in}
use patty.Kiss.Tnc.Frames.Rounds.{drain_loop_next, unread}

-- The opening FEND is taken for the command byte of a data frame on port 12.
round_second_fend :
    (len : ℕ) (t : Tnc)
    → t.state ≡ frame_command
    → t.offset_o < len
    → get_or t.buf t.offset_i 0 ≡ fend
    → round len t ≡ (
      again,
      record t {
        state = frame_body;
        command = Command.payload;
        port = 12;
        offset_i = t.offset_i + 1;
      },
    )
unfolding round
round_second_fend len t hs ho hb = ground arith

-- Where the receiver waits for a command byte, as it does behind a frame that was not for port 0,
-- a whole frame on port 0 is taken for one on port 12: it is not pending, its command byte and its
-- bytes stay in the caller's array, and the receiver waits for a command byte as before.
pub drain_second_fend :
    (p more : List ℕ) (len : ℕ) (t : Tnc)
    → t.state ≡ frame_command
    → length t.dest ≡ len
    → t.readlen ≡ length t.buf
    → t.offset_o + 1 + length p < len
    → unread t ≡ encode 0 p ++ more
    → (n : ℤ) × (t' : Tnc) × (drain t len ≡ some (n, t'))
      × (t'.state ≡ frame_command)
      × (t'.port ≡ 12)
      × (pending t' ≡ false)
      × (take t'.offset_o t'.dest ≡ take t.offset_o t.dest ++ (0 ∷ p))
      × (unread t' ≡ more)
unfolding drain pending escape_of
drain_second_fend p more len t hs room whole fits h =
    let t₁ : Tnc = record t {
      state = frame_body;
      command = Command.payload;
      port = 12;
      offset_i = t.offset_i + 1;
    } in
    let h₀ : unread t ≡ fend ∷ (escape (0 ∷ p) ++ (fend ∷ more)) =
      h ∙ ap (λ l. fend ∷ 0 ∷ l) (append_assoc (escape p) (fend ∷ []) more) in
    let left : unread t₁ ≡ escape (0 ∷ p) ++ (fend ∷ more) = drop-next t.buf t.offset_i h₀ in
    let b : InBody len t₁ = record { body = refl; data_frame = refl; room = room; whole = whole } in
    let (t', run, taken) =
      body_taken (0 ∷ p) more t.readlen len t₁ b (omega arith) left
        (omega (arith, ap length h₀, ap length left, length-drop t.offset_i t.buf)) in
    let fuel : t.readlen + 1 ≡ suc t.readlen = omega arith in
    (
      sub_ℕ t'.offset_i t.offset_i,
      t',
      rw
          (
            fuel,
            drain_loop_next t.readlen len t t₁ (head_in t whole h₀)
                (round_second_fend len t hs (omega arith) (get_or-drop t.buf t.offset_i 0 h₀)),
          )
          (rw run),
      taken.at_end,
      taken.port_kept,
      rw (taken.at_end, taken.command_kept, taken.port_kept),
      taken.bytes,
      taken.left,
    )
