-- ===== src/Kiss/Tnc/Frames.antt =====
-- The receiver on what the sender wrote: a frame is taken whole, wherever it stands in the input.
pub mod Rounds
pub mod Body
use patty.Prelude.{
  List, [], ap, append_assoc, arith, get_or, get_or-drop, length, refl, some, suc, true, zero, ℕ,
  ◌%◌, ◌*◌, ◌++◌, ◌+◌, ◌<◌, ◌∙◌, ◌∷◌, ◌≡◌,
}
use patty.Prelude.Bits.{and_0x0f, and_0xf0}
use patty.Kiss.{fend}
use patty.Kiss.Command
use patty.Kiss.Send.{encode, escape}
use patty.Kiss.Tnc.{Tnc, again, drain_loop, frame_body, frame_command, idle, round}
-- The bytes of the read buffer that are still to be taken.
use patty.Kiss.Tnc.Frames.Rounds.{drain_loop_next, round_open, unread}
use patty.Kiss.Tnc.Frames.Body.{InBody, Taken, body_taken, drop-next, head_in}

-- Between frames: nothing stored, with the caller's array and the read buffer whole.
pub record IsReady (len : ℕ) (t : Tnc) : Type 0 where
  pub between : t.state ≡ idle
  pub empty : t.offset_o ≡ 0
  pub room : length t.dest ≡ len
  pub whole : t.readlen ≡ length t.buf

-- The byte behind the opening FEND, of a data frame.
round_data :
    (len port : ℕ) (t : Tnc)
    → t.state ≡ frame_command
    → t.offset_o < len
    → get_or t.buf t.offset_i 0 ≡ port % 16 * 16
    → round len t ≡ (
      again,
      record t {
        state = frame_body;
        command = Command.payload;
        port = port % 16;
        offset_i = t.offset_i + 1;
      },
    )
unfolding round
round_data len port t hs ho hb =
    ground (arith, and_0x0f (port % 16 * 16), and_0xf0 (port % 16 * 16))

-- A whole frame, from its opening FEND.
pub frame-Taken :
    (p more : List ℕ) (port fuel len : ℕ) (t : Tnc)
    → IsReady len t
    → length p < len
    → unread t ≡ encode port p ++ more
    → length (unread t) < fuel
    → (t' : Tnc) × (drain_loop fuel len t ≡ some (true, t'))
      × Taken len (record t { port = port % 16 }) p more t'
frame-Taken p more port zero len t r lt h hf = absurd (omega arith)
frame-Taken p more port (suc zero) len t r lt h hf = absurd (omega (arith, ap length h))
frame-Taken p more port (suc (suc fuel)) len t r lt h hf =
    let t₁ : Tnc = record t { state = frame_command; offset_i = t.offset_i + 1 } in
    let t₂ : Tnc = record t₁ {
      state = frame_body;
      command = Command.payload;
      port = port % 16;
      offset_i = t.offset_i + 1 + 1;
    } in
    let h₀ : unread t ≡ fend ∷ (port % 16 * 16) ∷ (escape p ++ (fend ∷ more)) =
      h ∙ ap (λ l. fend ∷ (port % 16 * 16) ∷ l) (append_assoc (escape p) (fend ∷ []) more) in
    let left₁ : unread t₁ ≡ (port % 16 * 16) ∷ (escape p ++ (fend ∷ more)) =
      drop-next t.buf t.offset_i h₀ in
    let left₂ : unread t₂ ≡ escape p ++ (fend ∷ more) = drop-next t.buf (t.offset_i + 1) left₁ in
    let b₂ : InBody len t₂ = record {
      body = refl;
      data_frame = refl;
      room = r.room;
      whole = r.whole;
    } in
    let (t', run, taken) =
      body_taken p more fuel len t₂ b₂ (omega (arith, r.empty)) left₂
        (omega (arith, ap length h₀, ap length left₂)) in
    (
      t',
      drain_loop_next (suc fuel) len t t₁ (head_in t r.whole h₀) (
            round_open len t r.between (omega (arith, r.empty)) (get_or-drop t.buf t.offset_i 0 h₀))
          ∙ drain_loop_next fuel len t₁ t₂ (head_in t₁ r.whole left₁) (
              round_data len port t₁ refl (omega (arith, r.empty))
                (get_or-drop t.buf (t.offset_i + 1) 0 left₁))
          ∙ run,
      record {
        at_end = taken.at_end;
        command_kept = taken.command_kept;
        port_kept = taken.port_kept;
        room = taken.room;
        whole = taken.whole;
        dropped_kept = taken.dropped_kept;
        buf_kept = taken.buf_kept;
        count = taken.count;
        bytes = taken.bytes;
        left = taken.left;
      },
    )
