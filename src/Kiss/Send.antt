-- ===== src/Kiss/Send.antt =====
-- What patty_kiss_frame_send (kiss.c) writes, as a function of the frame.
use patty.Prelude.{
  ==_iff, >>=-eq-some, Bool-cases, List, Option, Option-cases, [], ap, append-nil, append_assoc,
  arith, bit_and, drop, drop-drop, drop-suc, inl, inr, length, none, refl, some, some-injective,
  suc, sym, take, take-snoc, ℕ, ◌%◌, ◌*◌, ◌++◌, ◌+◌, ◌-◌, ◌==◌, ◌∙◌, ◌∷◌, ◌≡◌, ◌≤◌,
}
use patty.Prelude.Bits.{and_0x0f, or_add}
use patty.Kiss.Command
use patty.Kiss.{
  Fd, escape_of, fend, frame_send, send_loop, slice, start_byte, write_byte, write_rest,
  write_start,
}

-- What stands for a byte on the line.
abbrev pub escaped : Option (List ℕ) → ℕ → List ℕ
escaped none c = c ∷ []
escaped (some escape) c = escape

-- The frame with its escapes, and the whole of what goes to the line.
abbrev pub escape : List ℕ → List ℕ
escape [] = []
escape (c ∷ cs) = escaped (escape_of c) c ++ escape cs

abbrev pub encode : ℕ → List ℕ → List ℕ
encode port buf = fend ∷ (port % 16 * 16) ∷ (escape buf ++ (fend ∷ []))

start_byte_data : (port : ℕ) → start_byte 0 port ≡ port % 16 * 16
unfolding start_byte
start_byte_data port = or_add 4 (bit_and port 0x0f) 0 (omega arith) ∙ omega (arith, and_0x0f port)

-- An empty range, and a range that grows by the byte behind it.
slice_empty : (buf : List ℕ) (i : ℕ) → slice buf i i ≡ []
slice_empty buf i = let e : i - i ≡ 0 = omega arith in ap (λ k. take k (drop i buf)) e

slice-snoc :
    (buf : List ℕ) (start i : ℕ) {c : ℕ} {rest : List ℕ}
    → start ≤ i
    → drop i buf ≡ c ∷ rest
    → slice buf start (i + 1) ≡ slice buf start i ++ (c ∷ [])
slice-snoc buf start i {c} {rest} le h =
    ap (λ k. take k (drop start buf)) next ∙ take-snoc (drop start buf) (i - start) at_i
  where
    next : i + 1 - start ≡ suc (i - start)
    next = omega arith

    back : start + (i - start) ≡ i
    back = omega arith

    at_i : drop (i - start) (drop start buf) ≡ c ∷ rest
    at_i = drop-drop start (i - start) buf ∙ ap (λ k. drop k buf) back ∙ h

drop-suc-one :
    (buf : List ℕ) (i : ℕ) {c : ℕ} {rest : List ℕ} → drop i buf ≡ c ∷ rest → drop (i + 1) buf ≡ rest
drop-suc-one buf i h =
    let e : i + 1 ≡ suc i = omega arith in ap (λ k. drop k buf) e ∙ drop-suc buf i h

module _ (fd : Fd) where
  open fd use {World, write, stream, write_appends}

  -- A byte that needs no escape joins the range; an escape ends it.
  plain_step :
      (buf rest : List ℕ) (i start : ℕ) (w : World) {c : ℕ} {out : List ℕ}
      → start ≤ i
      → drop i buf ≡ c ∷ rest
      → out ≡ (stream w ++ slice buf start (i + 1)) ++ escape rest
      → out ≡ (stream w ++ slice buf start i) ++ (c ∷ escape rest)
  plain_step buf rest i start w {c} le h ih =
      ih ∙ rw (slice-snoc buf start i le h) (simp append_assoc)

  escape_step :
      (buf rest : List ℕ) (i start : ℕ) (w w₁ w₂ : World) (esc : List ℕ) {out : List ℕ}
      → write w (slice buf start i) ≡ some w₁
      → write w₁ esc ≡ some w₂
      → out ≡ (stream w₂ ++ slice buf (i + 1) (i + 1)) ++ escape rest
      → out ≡ (stream w ++ slice buf start i) ++ (esc ++ escape rest)
  escape_step buf rest i start w w₁ w₂ esc e₁ e₂ ih =
      ih
      ∙ rw (slice_empty buf (i + 1), write_appends w₁ w₂ esc e₂, write_appends w w₁ _ e₁)
          (simp (append-nil, append_assoc))

  -- What the loop has written, with the range that it still owes, is the escaped prefix.
  send_loop_stream :
      (buf rest : List ℕ) (i start : ℕ) (w w' : World) (s e : ℕ)
      → start ≤ i
      → drop i buf ≡ rest
      → send_loop fd w buf rest i start i ≡ some (w', s, e)
      → stream w' ++ slice buf s e ≡ (stream w ++ slice buf start i) ++ escape rest
  unfolding send_loop
  send_loop_stream buf [] i start w w' s e le h run = rw append-nil (
      sym (
        ap (λ (t : World × ℕ × ℕ). stream t.0 ++ slice buf t.1 t.2)
          (some-injective (w, start, i) (w', s, e) run)))
  send_loop_stream buf (c ∷ rest) i start w w' s e le h run = elim (Option-cases (escape_of c)) [
    | inl plain ↦ rw plain (
        plain_step buf rest i start w le h (
          send_loop_stream buf rest (i + 1) start w w' s e (omega arith) (drop-suc-one buf i h)
            (rw (plain, send_loop) at run)))
    | inr (esc, found) ↦
        let (w₁, e₁, run₁) =
          >>=-eq-some (write w (slice buf start i)) _ (rw (found, send_loop) at run) in
        let (w₂, e₂, run₂) = >>=-eq-some (write w₁ esc) _ run₁ in
        rw found (
          escape_step buf rest i start w w₁ w₂ esc e₁ e₂ (
            send_loop_stream buf rest (i + 1) (i + 1) w₂ w' s e (omega arith) (drop-suc-one buf i h)
              run₂))
  ]

  write_rest_stream :
      (buf : List ℕ) (s e : ℕ) (w w' : World)
      → write_rest fd w buf s e ≡ some w'
      → stream w' ≡ stream w ++ slice buf s e
  unfolding write_rest
  write_rest_stream buf s e w w' run = elim (Bool-cases (e - s == 0)) [
    | inl none_left ↦
        let p : w ≡ w' = some-injective w w' (rw none_left at run) in
        let z : e - s ≡ 0 = (==_iff (e - s) 0).0 none_left in rw (z, append-nil) (ap stream (sym p))
    | inr some_left ↦ write_appends w w' _ (rw some_left at run)
  ]

  -- When every write of patty_kiss_frame_send succeeds, the call returns the length of the frame
  -- and the line has got the frame's KISS encoding, start byte, escapes and both FENDs included,
  -- behind what it held.
  pub frame_send-encode :
      (w w' : World) (buf : List ℕ) (port n : ℕ)
      → frame_send fd w buf port ≡ some (w', n)
      → (n ≡ length buf) × (stream w' ≡ stream w ++ encode port buf)
  unfolding frame_send write_start write_byte
  frame_send-encode w w' buf port n run =
      let (w₁, e₁, r₁) = >>=-eq-some (write_start fd w Command.payload port) _ run in
      let ((w₂, s, e), e₂, r₂) = >>=-eq-some (send_loop fd w₁ buf buf 0 0 0) _ r₁ in
      let (w₃, e₃, r₃) = >>=-eq-some (write_rest fd w₂ buf s e) _ r₂ in
      let (w₄, e₄, r₄) = >>=-eq-some (write_byte fd w₃ fend) _ r₃ in
      let same = some-injective (w₄, length buf) (w', n) r₄ in
      (
        sym (ap (λ (t : World × ℕ). t.1) same),
        sym (ap (λ (t : World × ℕ). stream t.0) same)
            ∙ write_appends w₃ w₄ _ e₄
            ∙ rw
                (
                  write_rest_stream buf s e w₂ w₃ e₃,
                  send_loop_stream buf buf 0 0 w₁ w₂ s e (omega arith) refl e₂,
                  slice_empty buf 0,
                  write_appends w w₁ _ e₁,
                  start_byte_data port,
                )
                (simp (append-nil, append_assoc)),
      )

  module _ (works : (w : World) (bytes : List ℕ) → (w' : World) × (write w bytes ≡ some w')) where
    send_loop_total :
        (buf rest : List ℕ) (i start end : ℕ) (w : World)
        → (t : World × ℕ × ℕ) × (send_loop fd w buf rest i start end ≡ some t)
    unfolding send_loop
    send_loop_total buf [] i start end w = ((w, start, end), refl)
    send_loop_total buf (c ∷ rest) i start end w = elim (Option-cases (escape_of c)) [
      | inl plain ↦
          let (t, e) = send_loop_total buf rest (i + 1) start (i + 1) w in
          (t, rw (plain, send_loop) e)
      | inr (esc, found) ↦
          let (w₁, e₁) = works w (slice buf start end) in
          let (w₂, e₂) = works w₁ esc in
          let (t, e) = send_loop_total buf rest (i + 1) (i + 1) (i + 1) w₂ in
          (t, rw (found, send_loop) (rw e₁ (rw e₂ e)))
    ]

    write_rest_total :
        (buf : List ℕ) (s e : ℕ) (w : World) → (w' : World) × (write_rest fd w buf s e ≡ some w')
    unfolding write_rest
    write_rest_total buf s e w = elim (Bool-cases (e - s == 0)) [
      | inl none_left ↦ (w, rw none_left)
      | inr some_left ↦ let (w', e₁) = works w (slice buf s e) in (w', rw some_left e₁)
    ]

    frame_send_returns :
        (w : World) (buf : List ℕ) (port : ℕ)
        → (w' : World) × (frame_send fd w buf port ≡ some (w', length buf))
    unfolding frame_send write_start write_byte
    frame_send_returns w buf port =
        let (w₁, e₁) = works w (fend ∷ start_byte Command.payload port ∷ []) in
        let ((w₂, s, e), e₂) = send_loop_total buf buf 0 0 0 w₁ in
        let (w₃, e₃) = write_rest_total buf s e w₂ in
        let (w₄, e₄) = works w₃ (fend ∷ []) in (w₄, rw e₁ (rw e₂ (rw e₃ (rw e₄))))

    -- If every write succeeds, patty_kiss_frame_send does, on every frame and port: it returns the
    -- frame's length, and the line has got the frame's encoding.
    pub frame_send_total :
        (w : World) (buf : List ℕ) (port : ℕ)
        → (w' : World) × (frame_send fd w buf port ≡ some (w', length buf))
          × (stream w' ≡ stream w ++ encode port buf)
    frame_send_total w buf port =
        let (w', sends) = frame_send_returns w buf port in
        (w', sends, (frame_send-encode w w' buf port _ sends).1)
