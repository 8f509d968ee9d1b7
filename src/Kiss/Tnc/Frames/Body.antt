-- ===== src/Kiss/Tnc/Frames/Body.antt =====
-- The body of a frame in the receive loop of tnc.c.
use patty.Prelude.{
  List, Option-cases, [], ap, append-nil, append_assoc, arith, drop, drop-suc, get_or-drop, inl,
  inr, length, length-set, refl, set, some, suc, sym, take, take-set, true, zero, ℕ, ◌++◌, ◌+◌, ◌-◌,
  ◌<◌, ◌∙◌, ◌∷◌, ◌≡◌,
}
use patty.Kiss.{escape_of, fend, fesc}
use patty.Kiss.Command
use patty.Kiss.Send.{escape}
use patty.Kiss.Tnc.{Tnc, drain_loop, frame_body, frame_command, frame_escape}
-- The bytes of the read buffer that are still to be taken.
use patty.Kiss.Tnc.Frames.Rounds.{
  drain_loop_end, drain_loop_next, drop-cons_lt, escape_of-eq-some, round-fend, round-fesc,
  round_escaped, round_plain, unread,
}

-- In the body of a data frame, with the caller's array and the read buffer whole.
pub record InBody (len : ℕ) (t : Tnc) : Type 0 where
  pub body : t.state ≡ frame_body
  pub data_frame : t.command ≡ Command.payload
  pub room : length t.dest ≡ len
  pub whole : t.readlen ≡ length t.buf

-- The payload `p` has been taken: it stands in `dest` behind what was there, and `more` is left.
pub record Taken (len : ℕ) (t : Tnc) (p more : List ℕ) (t' : Tnc) : Type 0 where
  pub at_end : t'.state ≡ frame_command
  pub command_kept : t'.command ≡ Command.payload
  pub port_kept : t'.port ≡ t.port
  pub room : length t'.dest ≡ len
  pub whole : t'.readlen ≡ length t'.buf
  pub dropped_kept : t'.dropped ≡ t.dropped
  pub buf_kept : t'.buf ≡ t.buf
  pub count : t'.offset_o ≡ t.offset_o + length p
  pub bytes : take t'.offset_o t'.dest ≡ take t.offset_o t.dest ++ p
  pub left : unread t' ≡ more

-- One byte of the payload stored, then the rest.
Taken-cons :
    (len c : ℕ) (t t₁ t' : Tnc) (p more : List ℕ)
    → length t.dest ≡ len
    → t.offset_o < len
    → t₁.dest ≡ set t.dest t.offset_o c
    → t₁.offset_o ≡ t.offset_o + 1
    → t₁.port ≡ t.port
    → t₁.dropped ≡ t.dropped
    → t₁.buf ≡ t.buf
    → Taken len t₁ p more t'
    → Taken len t (c ∷ p) more t'
Taken-cons len c t t₁ t' p more room lt hd ho hp hn hb taken = record {
  at_end = taken.at_end;
  command_kept = taken.command_kept;
  port_kept = taken.port_kept ∙ hp;
  room = taken.room;
  whole = taken.whole;
  dropped_kept = taken.dropped_kept ∙ hn;
  buf_kept = taken.buf_kept ∙ hb;
  count = omega (arith, taken.count);
  bytes = taken.bytes ∙ ap (λ l. l ++ p) stored ∙ append_assoc (take t.offset_o t.dest) (c ∷ []) p;
  left = taken.left;
}
  where
    next : t₁.offset_o ≡ suc t.offset_o
    next = omega arith

    stored : take t₁.offset_o t₁.dest ≡ take t.offset_o t.dest ++ (c ∷ [])
    stored = rw (next, hd) (take-set t.dest t.offset_o c (omega arith))

abbrev pub Outcome : ℕ → ℕ → Tnc → List ℕ → List ℕ → Type 0
Outcome fuel len t p more =
    (t' : Tnc) × (drain_loop fuel len t ≡ some (true, t')) × Taken len t p more t'

pub head_in :
    (t : Tnc) {c : ℕ} {rest : List ℕ}
    → t.readlen ≡ length t.buf
    → unread t ≡ c ∷ rest
    → t.offset_i < t.readlen
head_in t e h = omega (arith, drop-cons_lt t.buf t.offset_i h)

pub drop-next :
    (xs : List ℕ) (i : ℕ) {x : ℕ} {rest : List ℕ} → drop i xs ≡ x ∷ rest → drop (i + 1) xs ≡ rest
drop-next xs i h = let e : i + 1 ≡ suc i = omega arith in ap (λ k. drop k xs) e ∙ drop-suc xs i h

body_end :
    (fuel len : ℕ) (t : Tnc) (more : List ℕ)
    → InBody len t
    → t.offset_o < len
    → unread t ≡ fend ∷ more
    → Outcome (suc fuel) len t [] more
body_end fuel len t more b lt h =
    let t' : Tnc = record t { state = frame_command; offset_i = t.offset_i + 1 } in
    (
      t',
      drain_loop_end fuel len t t' (head_in t b.whole h)
          (round-fend len t b.body lt (get_or-drop t.buf t.offset_i 0 h)),
      record {
        at_end = refl;
        command_kept = b.data_frame;
        port_kept = refl;
        room = b.room;
        whole = b.whole;
        dropped_kept = refl;
        buf_kept = refl;
        count = omega arith;
        bytes = sym (append-nil _);
        left = drop-next t.buf t.offset_i h;
      },
    )

-- Two rounds for an escape, then the rest.
escape_taken :
    (c second : ℕ) (p more : List ℕ) (fuel len : ℕ) (t : Tnc)
    → InBody len t
    → t.offset_o + length (c ∷ p) < len
    → escape_of c ≡ some (fesc ∷ second ∷ [])
    → unread t ≡ fesc ∷ second ∷ (escape p ++ (fend ∷ more))
    → length (unread t) < suc fuel
    → ((t₂ : Tnc)
        → InBody len t₂
        → t₂.offset_o + length p < len
        → unread t₂ ≡ escape p ++ (fend ∷ more)
        → length (unread t₂) < fuel - 1
        → Outcome (fuel - 1) len t₂ p more)
    → Outcome (suc fuel) len t (c ∷ p) more
escape_taken c second p more fuel len t b lt found h hf rest =
    let t₁ : Tnc = record t { state = frame_escape; offset_i = t.offset_i + 1 } in
    let t₂ : Tnc = record t {
      state = frame_body;
      dest = set t.dest t.offset_o c;
      offset_o = t.offset_o + 1;
      offset_i = t.offset_i + 1 + 1;
    } in
    let b₂ : InBody len t₂ = record {
      body = refl;
      data_frame = b.data_frame;
      room = length-set t.dest t.offset_o c ∙ b.room;
      whole = b.whole;
    } in
    let left₁ : unread t₁ ≡ second ∷ (escape p ++ (fend ∷ more)) = drop-next t.buf t.offset_i h in
    let left₂ : unread t₂ ≡ escape p ++ (fend ∷ more) = drop-next t.buf (t.offset_i + 1) left₁ in
    let (t', run, taken) =
      rest t₂ b₂ (omega arith) left₂ (omega (arith, ap length h, ap length left₂)) in
    let fuel_left : fuel ≡ suc (fuel - 1) = omega (arith, ap length h) in
    (
      t',
      drain_loop_next fuel len t t₁ (head_in t b.whole h)
            (round-fesc len t b.body (omega arith) (get_or-drop t.buf t.offset_i 0 h))
          ∙ ap (λ f. drain_loop f len t₁) fuel_left
          ∙ drain_loop_next (fuel - 1) len t₁ t₂ (head_in t₁ b.whole left₁) (
              round_escaped len c second t₁ refl (omega arith)
                (get_or-drop t.buf (t.offset_i + 1) 0 left₁) found)
          ∙ run,
      Taken-cons len c t t₂ t' p more b.room (omega arith) refl refl refl refl refl taken,
    )

-- Of a frame's body and its FEND, the loop takes the bytes that the escapes stand for.
pub body_taken :
    (p more : List ℕ) (fuel len : ℕ) (t : Tnc)
    → InBody len t
    → t.offset_o + length p < len
    → unread t ≡ escape p ++ (fend ∷ more)
    → length (unread t) < fuel
    → Outcome fuel len t p more
body_taken p more zero len t b lt h hf = absurd (omega arith)
body_taken [] more (suc fuel) len t b lt h hf = body_end fuel len t more b (omega arith) h
body_taken (c ∷ p) more (suc fuel) len t b lt h hf = elim (Option-cases (escape_of c)) [
  | inl plain ↦
      let h₁ : unread t ≡ c ∷ (escape p ++ (fend ∷ more)) = rw plain at h in
      let t₁ : Tnc = record t {
        dest = set t.dest t.offset_o c;
        offset_o = t.offset_o + 1;
        offset_i = t.offset_i + 1;
      } in
      let b₁ : InBody len t₁ = record {
        body = b.body;
        data_frame = b.data_frame;
        room = length-set t.dest t.offset_o c ∙ b.room;
        whole = b.whole;
      } in
      let left = drop-next t.buf t.offset_i h₁ in
      let (t', run, taken) =
        body_taken p more fuel len t₁ b₁ (omega arith) left
          (omega (arith, ap length h₁, ap length left)) in
      (
        t',
        drain_loop_next fuel len t t₁ (head_in t b.whole h₁) (
              round_plain len c t b.body b.data_frame (omega arith)
                (get_or-drop t.buf t.offset_i 0 h₁) plain)
            ∙ run,
        Taken-cons len c t t₁ t' p more b.room (omega arith) refl refl refl refl refl taken,
      )
  | inr (e, found) ↦
      let (second, shape) = escape_of-eq-some c e found in
      escape_taken c second p more fuel len t b lt (found ∙ ap some shape) (rw (found, shape) at h)
        hf (λ (t₂ : Tnc) (b₂ : InBody len t₂). body_taken p more (fuel - 1) len t₂ b₂)
]
