-- ===== src/Conf/Steps.antt =====
-- A round of the reader in its buffer, and of the reader of texts.
use patty.Prelude.{
  Bool, Bool-cases, List, Option, Option-cases, [], arith, false, if◌then◌else◌, inl, inr, length,
  ltb, map, refl, true, ℕ, ◌&&◌, ◌+◌, ◌==◌, ◌∷◌, ◌≡◌,
}
use patty.Result.{Result, err, ok, stale, ◌>>=◌}
use patty.Conf.{
  Escape, Reader, State, Token, end_line, end_of_string, is_empty, is_off, read_char,
  start_of_string, stored, turn, unescape, within_string,
}
use patty.Conf.Words.{Words, end_words, kept, word_char}
use patty.Conf.States.{
  end-is_string_new, end-is_string_old, is_quote, is_quote-is_string, is_string, neither-is_string,
  start-is_string, turn-is_string, within-is_quote, within-is_string,
}
use patty.Conf.Refines.{
  Holds, Holds-save, Holds-sent, Holds-skip, Holds-start, Holds-store, Refines, is_empty-Texts,
  map-token_text, reader_of, refines, stores_at, token_text, words_of,
}

-- A part of a round succeeds, with the same texts.
data StoresAs (i : ℕ) (rest : List ℕ) (state : State) : Result Reader → Words → Type 0 where
  stores : {r : Reader} {w : Words} → Refines i rest state r w → StoresAs i rest state (ok r) w

stored-StoresAs :
    (old new : State) (escape : Escape) (lineno column last : ℕ) {buf : List ℕ} {o : ℕ}
    {token : Token} {line : List Token} {current : List ℕ} {texts : List (List ℕ)} {i c : ℕ}
    {rest : List ℕ} {open_string room : Bool}
    → Holds buf o token line current texts i (c ∷ rest) open_string room
    → (is_string new ≡ true → open_string ≡ true)
    → (end_of_string old new ≡ true → open_string ≡ true)
    → (end_of_string old new ≡ false → is_string new ≡ false → open_string ≡ false)
    → (is_quote old ≡ true → room ≡ true)
    → StoresAs
        (i + 1)
        rest
        new
        (stored old (reader_of buf o new escape lineno column last token line) c)
        (kept old (words_of new escape last current texts) c)
stored-StoresAs old new escape lineno column last {buf} {o} {token} {line} {current} {texts} {c = c}
      h opens ends closed quote =
    elim (Bool-cases (within_string old new)) [
      | inl within ↦
          let t = opens (within-is_string old new within) in
          elim (Bool-cases (is_off escape)) [
            | inl plain ↦
                let fits : ltb o (length buf) ≡ true = ground (arith, stores_at h) in
                let held =
                  Holds-store h t (is_quote new)
                    (λ q. h.room_left (quote (within-is_quote old new within q))) in
                rw (within, plain, fits)
                  (stores (
                    refines _ _ new escape _ _ _ _ _ _ _
                      (rw (within-is_string old new within) held)))
            | inr escaped ↦
                rw (within, escaped)
                  (stores (
                    refines _ _ new escape _ _ _ _ _ _ _ (
                      Holds-skip h (is_string new) (is_quote new) opens
                        (λ e. let s = within-is_string old new within in cc))))
          ]
      | inr without ↦ elim (Bool-cases (end_of_string old new)) [
        | inl at_end ↦
            let fits : ltb o (length buf) ≡ true = ground (arith, stores_at h) in
            let outside = end-is_string_new old new at_end in
            rw (without, at_end, fits)
              (stores (
                refines _ _ new escape _ _ _ _ _ _ _
                  (rw (outside, is_quote-is_string new outside) (Holds-save h (ends at_end)))))
        | inr neither ↦
            rw (without, neither)
              (stores (
                refines _ _ new escape _ _ _ _ _ _ _
                  (Holds-skip h (is_string new) (is_quote new) opens (closed neither))))
      ]
    ]

-- The handler of texts, called with what the reader in its buffer has.
abbrev pub seen_by :
    {C : Type 0} → (List (List ℕ) → C → Option C) → List ℕ → List Token → C → Option C
seen_by handler buf line = handler (map (token_text buf) line)

-- Both end alike, and the contexts are the same.
pub data Agree {C : Type 0} (i : ℕ) (rest : List ℕ) (state : State)
    : Result (Reader × C) → Result (Words × C) → Type 0 where
  both :
      {r : Reader} {w : Words} (ctx : C)
      → Refines i rest state r w
      → Agree i rest state (ok (r, ctx)) (ok (w, ctx))
  refused : Agree i rest state (err stale) (err stale)

module _ {C : Type 0} (handler : List (List ℕ) → C → Option C) where
  pub end_line-Agree :
      {i : ℕ} {rest : List ℕ} {state : State} {r : Reader} {w : Words} (ctx : C)
      → Refines i rest state r w
      → Agree i rest state (end_line (seen_by handler) r ctx) (end_words handler w ctx)
  end_line-Agree {i} {rest} ctx
        (refines buf o state escape lineno column last token line current texts h) =
      elim (Bool-cases (is_empty texts)) [
        | inl nothing ↦
            rw (is_empty-Texts h.line_is, nothing)
              (both ctx (refines buf o state escape lineno column last token line current texts h))
        | inr something ↦
            rw (is_empty-Texts h.line_is, something, map-token_text h.line_is)
              (elim (Option-cases (handler texts ctx)) [
                | inl e ↦ rw e refused
                | inr (after, e) ↦ rw e (
                    both after (
                      refines buf o state escape lineno column last token [] current []
                        (Holds-sent h)))
              ])
      ]

  -- The end of a round.
  close-Agree :
      {i : ℕ} {rest : List ℕ} {state : State} {m : Result (Reader × C)} {n : Result (Words × C)}
      (c : ℕ)
      → Agree i rest state m n
      → Agree i rest state
          (m >>= λ t. ok (record t.0 { escape = unescape t.0.escape t.0.last; last = c }, t.1))
          (n >>= λ t. ok (record t.0 { escape = unescape t.0.escape t.0.last; last = c }, t.1))
  close-Agree c refused = refused
  close-Agree c
        (both ctx (refines buf o state escape lineno column last token line current texts h)) =
      both ctx
        (refines buf o state (unescape escape last) lineno column c token line current texts h)

  line-Agree :
      {i : ℕ} {rest : List ℕ} {state : State} {r : Reader} {w : Words} (ctx : C) (c : ℕ)
      → Refines i rest state r w
      → Agree i rest state
          (if c == b'\n' && is_off r.escape then end_line (seen_by handler) r ctx else ok (r, ctx))
          (if c == b'\n' && is_off w.escape then end_words handler w ctx else ok (w, ctx))
  line-Agree ctx c (refines buf o state escape lineno column last token line current texts h) =
      let r = refines buf o state escape lineno column last token line current texts h in
      elim (Bool-cases (c == b'\n' && is_off escape)) [
        | inl ends ↦ rw ends (end_line-Agree ctx r)
        | inr goes_on ↦ rw goes_on (both ctx r)
      ]

  round-Agree :
      {i : ℕ} {rest : List ℕ} {state : State} {m : Result Reader} {w : Words} (ctx : C) (c : ℕ)
      → StoresAs i rest state m w
      → Agree i rest state
          (m >>= λ r.
            (if c == b'\n' && is_off r.escape
              then end_line (seen_by handler) r ctx
              else ok (r, ctx))
            >>= λ t. ok (record t.0 { escape = unescape t.0.escape t.0.last; last = c }, t.1))
          ((if c == b'\n' && is_off w.escape then end_words handler w ctx else ok (w, ctx)) >>= λ t.
            ok (record t.0 { escape = unescape t.0.escape t.0.last; last = c }, t.1))
  round-Agree ctx c (stores r) = close-Agree c (line-Agree ctx c r)

  pub read_char-Agree :
      {i c : ℕ} {rest : List ℕ} {state : State} {r : Reader} {w : Words} (ctx : C)
      → Refines i (c ∷ rest) state r w
      → Agree
          (i + 1)
          rest
          (turn state w.escape c).0
          (read_char (seen_by handler) r ctx c)
          (word_char handler w ctx c)
  unfolding read_char word_char
  read_char-Agree {c = c} ctx
        (refines buf o state escape lineno column last token line current texts h) =
      let new = turn state escape c in
      elim (Bool-cases (start_of_string state new.0)) [
        | inl starts ↦ rw starts (
            round-Agree ctx c (
              stored-StoresAs state new.0 new.1 _ _ last (Holds-start h _ _) (λ _. refl) (λ _. refl)
                (λ _ k. let s = start-is_string state new.0 starts in cc) (λ q. q)))
        | inr inside ↦ rw inside (
            round-Agree ctx c (
              stored-StoresAs state new.0 new.1 _ _ last h
                (λ k. turn-is_string state escape c k inside) (end-is_string_old state new.0)
                (neither-is_string state new.0) (λ q. q)))
      ]
