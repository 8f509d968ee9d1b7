-- ===== src/Conf/Words.antt =====
-- The reader of configuration files without its buffer: the same states, with the texts as values.
use patty.Prelude.{List, Option, [], if◌then◌else◌, ℕ, ◌&&◌, ◌++◌, ◌==◌, ◌∷◌}
use patty.Result.{Result, ok, ◌>>=◌}
use patty.Conf.{
  Escape, State, accepted, end_of_string, in_string, is_empty, is_off, off, start_of_string, turn,
  unescape, within_string,
}

-- The text being read, and those of the line.
pub record Words : Type 0 where
  pub state : State
  pub escape : Escape
  pub last : ℕ
  pub current : List ℕ
  pub line : List (List ℕ)

abbrev pub words_turned : Words → ℕ → Words
words_turned w c =
    let next = turn w.state w.escape c in record w { state = next.0; escape = next.1 }

abbrev pub words_started : State → Words → Words
words_started old w = if start_of_string old w.state then record w { current = [] } else w

abbrev pub save : Words → Words
save w = record w { line = w.line ++ (w.current ∷ []); current = [] }

abbrev pub kept : State → Words → ℕ → Words
kept old w c =
    if within_string old w.state
    then (if is_off w.escape then record w { current = w.current ++ (c ∷ []) } else w)
    else if end_of_string old w.state
    then save w
    else w

abbrev pub words_start : Words
words_start = record { state = in_string; escape = off; last = 0; current = []; line = [] }

module _ {C : Type 0} (handler : List (List ℕ) → C → Option C) where
  abbrev pub end_words : Words → C → Result (Words × C)
  end_words w ctx =
      if is_empty w.line
      then ok (w, ctx)
      else (accepted (handler w.line ctx) >>= λ after. ok (record w { line = [] }, after))

  unfoldable pub word_char : Words → C → ℕ → Result (Words × C)
  unfolding turn
  word_char w ctx c =
      let v = kept w.state (words_started w.state (words_turned w c)) c in
      (if c == b'\n' && is_off v.escape then end_words v ctx else ok (v, ctx)) >>= λ t.
      ok (record t.0 { escape = unescape t.0.escape t.0.last; last = c }, t.1)

  unfoldable pub words_loop : Words → C → List ℕ → Result (Words × C)
  unfolding word_char
  words_loop w ctx [] = ok (w, ctx)
  words_loop w ctx (c ∷ rest) = word_char w ctx c >>= λ s. words_loop s.0 s.1 rest

  -- What is left at the end.
  abbrev pub words_end : Words × C → Result C
  words_end s =
      let w = if is_empty s.0.current then s.0 else save s.0 in end_words w s.1 >>= λ t. ok t.1

  -- The texts of each line go to the handler.
  unfoldable pub words_read : C → List ℕ → Result C
  unfolding words_loop
  words_read ctx contents = words_loop words_start ctx contents >>= words_end
