-- ===== src/Conf/InPlace.antt =====
-- The whole of a file, read in its buffer and read as texts.
use patty.Prelude.{
  Bool-cases, List, Option, Option-cases, [], ap, arith, drop, false, if◌then◌else◌, inl, inr,
  length, ltb, refl, set, subst, suc, sym, true, zero, ℕ, ◌++◌, ◌+◌, ◌==◌, ◌∙◌, ◌∷◌, ◌≡◌, ◌≢◌, ◌≤◌,
}
use patty.Result.{Result, err, ok, read, refused, stale, ◌>>=◌}
use patty.Conf.{
  Reader, State, conf_read, end_line, in_string, is_empty, no_token, off, read_loop, token_save,
  turn,
}
use patty.Conf.Words.{Words, end_words, save, words_loop, words_read, words_start}
use patty.Conf.Slices.{length-slice, slice, slice_none}
use patty.Conf.States.{is_quote, is_string, turn_newline}
use patty.Conf.Refines.{
  Holds, Refines, Texts, Texts-save, is_empty-Texts, map-token_text, none_saved, reader_of, refines,
  words_of,
}
use patty.Conf.Steps.{Agree, both, read_char-Agree, refused, seen_by}

read-drop :
    (buf : List ℕ) (i : ℕ) {c : ℕ} {rest : List ℕ} → drop i buf ≡ c ∷ rest → read buf i ≡ ok c
read-drop [] zero h = cc
read-drop [] (suc i) h = cc
read-drop (b ∷ buf) zero h = cc
read-drop (b ∷ buf) (suc i) h = read-drop buf i h

read-Refines :
    {i c : ℕ} {rest : List ℕ} {state : State} {r : Reader} {w : Words}
    → Refines i (c ∷ rest) state r w
    → read r.buf i ≡ ok c
read-Refines {i} (refines buf o state escape lineno column last token line current texts h) =
    read-drop buf i h.unread

is_empty-none :
    (buf : List ℕ) (text : ℕ) {len : ℕ} {current : List ℕ}
    → slice buf text len ≡ current
    → len ≡ 0
    → is_empty current ≡ true
is_empty-none buf text e z = ap is_empty (sym e) ∙ rw (z, slice_none buf text) refl

is_empty-some :
    (buf : List ℕ) (text len : ℕ) (current : List ℕ)
    → slice buf text len ≡ current
    → text + len ≤ length buf
    → len ≢ 0
    → is_empty current ≡ false
is_empty-some buf text len [] e h ne = absurd (ne (sym (length-slice buf text len h) ∙ ap length e))
is_empty-some buf text len (c ∷ cs) e h ne = refl

-- Both readers are at the end, in a state with a property, or were refused by the handler.
pub data Finish {C : Type 0} (P : State → Type 0) (j : ℕ)
    : Result (Reader × C) → Result (Words × C) → Type 0 where
  finished :
      {r : Reader} {w : Words} (state : State) (ctx : C)
      → P state
      → Refines j [] state r w
      → Finish P j (ok (r, ctx)) (ok (w, ctx))
  stopped : Finish P j (err stale) (err stale)

bind-Finish :
    {C : Type 0} {P : State → Type 0} {i j : ℕ} {rest : List ℕ} {state : State}
    {m : Result (Reader × C)} {n : Result (Words × C)} (f : Reader → C → Result (Reader × C))
    (g : Words → C → Result (Words × C))
    → Agree i rest state m n
    → ((r : Reader) (w : Words) (ctx : C)
        → Refines i rest state r w
        → Finish P j (f r ctx) (g w ctx))
    → Finish P j (m >>= λ s. f s.0 s.1) (n >>= λ s. g s.0 s.1)
bind-Finish f g refused k = stopped
bind-Finish f g (both {r} {w} ctx h) k = k r w ctx h

pub at_start :
    (contents : List ℕ)
    → Holds contents 0
        (record { text = 0; lineno = 1; column = 0; len = 0 })
        []
        []
        []
        0
        contents
        true
        false
at_start contents = record {
  unread = refl;
  size = omega arith;
  behind = omega arith;
  room_left = λ e. cc;
  line_is = none_saved;
  current_is = slice_none contents 0;
  in_range = omega arith;
  touches = λ _. omega arith;
  nothing = λ e. cc;
}

-- A string is open only in quotes.
abbrev Quoted : State → Type 0
Quoted state = is_string state ≡ true → is_quote state ≡ true

-- Any file.
pub read_loop-all :
    {C : Type 0} (handler : List (List ℕ) → C → Option C) (rest : List ℕ) (i j : ℕ) (state : State)
    (r : Reader) (w : Words) (ctx : C)
    → i + length rest ≡ j
    → Refines i rest state r w
    → Finish
        (λ _. Unit {0})
        j
        (read_loop (seen_by handler) (length rest) i r ctx)
        (words_loop handler w ctx rest)
unfolding read_loop words_loop
read_loop-all handler [] i j state r w ctx e h =
    let here : i ≡ j = omega arith in
    finished state ctx tt (subst (λ n. Refines n [] state r w) here h)
read_loop-all handler (c ∷ rest) i j state r w ctx e h = rw (read-Refines h) (
    bind-Finish _ _ (read_char-Agree handler ctx h)
      λ s v after k. read_loop-all handler rest (i + 1) j _ s v after (omega arith) k)

module _ {C : Type 0} (handler : List (List ℕ) → C → Option C) where
  read_loop-Finish :
      (body : List ℕ) (i j : ℕ) (state : State) (r : Reader) (w : Words) (ctx : C)
      → i + length (body ++ (b'\n' ∷ [])) ≡ j
      → Refines i (body ++ (b'\n' ∷ [])) state r w
      → Finish Quoted j
          (read_loop (seen_by handler) (length (body ++ (b'\n' ∷ []))) i r ctx)
          (words_loop handler w ctx (body ++ (b'\n' ∷ [])))
  unfolding read_loop words_loop
  read_loop-Finish [] i j state r w ctx e h =
      let here : i + 1 ≡ j = omega arith in
      rw (read-Refines h) (
        bind-Finish _ _ (read_char-Agree handler ctx h) λ s v after k.
          finished (turn state w.escape b'\n').0 after (turn_newline state w.escape)
            (subst (λ n. Refines n [] (turn state w.escape b'\n').0 s v) here k))
  read_loop-Finish (c ∷ body) i j state r w ctx e h = rw (read-Refines h) (
      bind-Finish _ _ (read_char-Agree handler ctx h)
        λ s v after k. read_loop-Finish body (i + 1) j _ s v after (omega arith) k)

  end_line-Texts :
      {o : ℕ} (r : Reader) (w : Words) (ctx : C)
      → Texts r.buf o r.line w.line
      → (end_line (seen_by handler) r ctx >>= λ t. ok t.1)
        ≡ (end_words handler w ctx >>= λ t. ok t.1)
  end_line-Texts r w ctx h = elim (Bool-cases (is_empty w.line)) [
    | inl nothing ↦ rw (is_empty-Texts h, nothing) refl
    | inr something ↦
        rw (is_empty-Texts h, something, map-token_text h)
          (elim (Option-cases (handler w.line ctx)) [
            | inl e ↦ rw e refl
            | inr (after, e) ↦ rw e refl
          ])
  ]

  -- The last token, and the last call of the handler.
  end-Finish :
      {j : ℕ} {m : Result (Reader × C)} {n : Result (Words × C)}
      → Finish Quoted j m n
      → (m >>= λ s. (if s.0.token.len == 0 then ok s.0 else token_save s.0) >>= λ r.
          end_line (seen_by handler) r s.1 >>= λ t. ok t.1)
        ≡ (n >>= λ s.
            end_words handler (if is_empty s.0.current then s.0 else save s.0) s.1 >>= λ t. ok t.1)
  end-Finish stopped = refl
  end-Finish
        (finished _ ctx quoted
          (refines buf o state escape lineno column last token line current texts h)) =
      elim (Bool-cases (token.len == 0)) [
        | inl no_text ↦
            let empty_text : is_empty current ≡ true =
              is_empty-none buf token.text h.current_is (ground arith) in
            rw (no_text, empty_text)
              (end_line-Texts (reader_of buf o state escape lineno column last token line)
                (words_of state escape last current texts) ctx h.line_is)
        | inr some_text ↦
            let open_string = opened (ground arith) in
            let fits : ltb o (length buf) ≡ true =
              ground (arith, h.size, h.room_left (quoted open_string)) in
            let text : is_empty current ≡ false =
              is_empty-some buf token.text token.len current h.current_is
                (omega (arith, h.in_range, h.behind, h.size)) (ground arith) in
            let r =
              reader_of (set buf o 0) (o + 1) state escape lineno column last no_token
                (line ++ (token ∷ [])) in
            let w = words_of state escape last [] (texts ++ (current ∷ [])) in
            rw (some_text, text, fits)
              (end_line-Texts r w ctx (Texts-save token h.in_range h.current_is h.line_is))
      ]
    where
      opened : token.len ≢ 0 → is_string state ≡ true
      opened ne = elim (Bool-cases (is_string state)) [
        | inl e ↦ e
        | inr e ↦ absurd (ne (h.nothing e))
      ]

  -- For a file that ends in a newline, reading it in place, with the tokens' texts taken from the
  -- buffer when the handler is called, does what the reader of texts does: every call of the handler
  -- is given the same texts, the result is the same, and no access is outside the buffer.
  pub conf_read-words_read :
      (ctx : C) (body : List ℕ)
      → conf_read (seen_by handler) ctx (body ++ (b'\n' ∷ []))
        ≡ words_read handler ctx (body ++ (b'\n' ∷ []))
  unfolding conf_read words_read
  conf_read-words_read ctx body = end-Finish (
      read_loop-Finish body 0 (length (body ++ (b'\n' ∷ []))) in_string _ words_start ctx
        (omega arith) (refines _ _ in_string off _ _ _ _ _ _ _ (at_start (body ++ (b'\n' ∷ [])))))
