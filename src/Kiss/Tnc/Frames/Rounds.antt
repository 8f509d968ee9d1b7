-- ===== src/Kiss/Tnc/Frames/Rounds.antt =====
-- Single rounds of the receive loop of tnc.c.
use patty.Prelude.{
  Bool-cases, List, [], arith, drop, get_or, inl, inr, length, none, set, some, some-injective, suc,
  sym, true, zero, ℕ, ◌+◌, ◌<◌, ◌==◌, ◌∷◌, ◌≡◌,
}
use patty.Kiss.{escape_of, fend, fesc, tfend, tfesc}
use patty.Kiss.Command
use patty.Kiss.Tnc.{
  Tnc, again, done, drain_loop, frame_body, frame_command, frame_escape, idle, round,
}

-- The bytes of the read buffer that are still to be taken.

abbrev pub unread : Tnc → List ℕ
unread t = drop t.offset_i t.buf

pub drop-cons_lt :
    (xs : List ℕ) (i : ℕ) {x : ℕ} {rest : List ℕ} → drop i xs ≡ x ∷ rest → i < length xs
drop-cons_lt [] zero h = cc
drop-cons_lt [] (suc i) h = cc
drop-cons_lt (y ∷ ys) zero h = omega arith
drop-cons_lt (y ∷ ys) (suc i) h = omega (arith, drop-cons_lt ys i h)

-- A byte that needs no escape, in the body of a data frame.
pub round_plain :
    (len c : ℕ) (t : Tnc)
    → t.state ≡ frame_body
    → t.command ≡ Command.payload
    → t.offset_o < len
    → get_or t.buf t.offset_i 0 ≡ c
    → escape_of c ≡ none
    → round len t ≡ (
      again,
      record t {
        dest = set t.dest t.offset_o c;
        offset_o = t.offset_o + 1;
        offset_i = t.offset_i + 1;
      },
    )
unfolding round escape_of
round_plain len c t hs hc ho hb he = ground arith

-- The first byte of an escape, and its second.
pub round-fesc :
    (len : ℕ) (t : Tnc)
    → t.state ≡ frame_body
    → t.offset_o < len
    → get_or t.buf t.offset_i 0 ≡ fesc
    → round len t ≡ (again, record t { state = frame_escape; offset_i = t.offset_i + 1 })
unfolding round
round-fesc len t hs ho hb = ground arith

pub round_escaped :
    (len c second : ℕ) (t : Tnc)
    → t.state ≡ frame_escape
    → t.offset_o < len
    → get_or t.buf t.offset_i 0 ≡ second
    → escape_of c ≡ some (fesc ∷ second ∷ [])
    → round len t ≡ (
      again,
      record t {
        state = frame_body;
        dest = set t.dest t.offset_o c;
        offset_o = t.offset_o + 1;
        offset_i = t.offset_i + 1;
      },
    )
unfolding round escape_of
round_escaped len c second t hs ho hb he = ground arith

pub round-fend :
    (len : ℕ) (t : Tnc)
    → t.state ≡ frame_body
    → t.offset_o < len
    → get_or t.buf t.offset_i 0 ≡ fend
    → round len t ≡ (done, record t { state = frame_command; offset_i = t.offset_i + 1 })
unfolding round
round-fend len t hs ho hb = ground arith

-- The FEND that opens a frame, and the byte behind it.
pub round_open :
    (len : ℕ) (t : Tnc)
    → t.state ≡ idle
    → t.offset_o < len
    → get_or t.buf t.offset_i 0 ≡ fend
    → round len t ≡ (again, record t { state = frame_command; offset_i = t.offset_i + 1 })
unfolding round
round_open len t hs ho hb = ground arith

-- An escape has two bytes, and the first is FESC.
pub escape_of-eq-some :
    (c : ℕ) (e : List ℕ) → escape_of c ≡ some e → (second : ℕ) × (e ≡ fesc ∷ second ∷ [])
unfolding escape_of
escape_of-eq-some c e h = elim (Bool-cases (c == fend)) [
  | inl is_fend ↦ (tfend, sym (some-injective _ _ (rw is_fend at h)))
  | inr other ↦ elim (Bool-cases (c == fesc)) [
    | inl is_fesc ↦ (tfesc, sym (some-injective _ _ (rw (other, is_fesc) at h)))
    | inr plain ↦ absurd (ground arith)
  ]
]

-- A round that asks for another, and one that ends the loop.
pub drain_loop_next :
    (fuel len : ℕ) (t t₁ : Tnc)
    → t.offset_i < t.readlen
    → round len t ≡ (again, t₁)
    → drain_loop (suc fuel) len t ≡ drain_loop fuel len t₁
unfolding drain_loop
drain_loop_next fuel len t t₁ lt e = ground arith

pub drain_loop_end :
    (fuel len : ℕ) (t t₁ : Tnc)
    → t.offset_i < t.readlen
    → round len t ≡ (done, t₁)
    → drain_loop (suc fuel) len t ≡ some (true, t₁)
unfolding drain_loop
drain_loop_end fuel len t t₁ lt e = ground arith
