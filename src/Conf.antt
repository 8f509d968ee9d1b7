-- ===== src/Conf.antt =====
-- The reader of configuration files: patty_conf_read of conf.c, which splits lines into tokens in
-- the buffer that it has read the file into.
mod Words
pub mod InPlace
mod Steps
mod States
mod Slices
pub mod Refines
pub mod Quoted
pub mod Comments
pub mod Unended
mod Tests
use patty.Prelude.{
  Bool, List, Option, [], false, if◌then◌else◌, length, ltb, none, not, set, some, suc, true, zero,
  ℕ, ◌&&◌, ◌++◌, ◌+◌, ◌==◌, ◌||◌, ◌∷◌,
}
use patty.Result.{Result, err, fault, ok, read, stale, ◌>>=◌}

-- `enum state`
pub data State : Type 0 where
  in_string in_single_quote in_double_quote in_delim in_comment : State

-- `enum escape`
pub data Escape : Type 0 where
  off on : Escape

abbrev pub is_off : Escape → Bool
is_off off = true
is_off on = false

-- `patty_conf_token`, with the offset in the buffer for the pointer `text`.
pub record Token : Type 0 where
  pub text : ℕ
  pub lineno : ℕ
  pub column : ℕ
  pub len : ℕ

-- What token_save leaves of the token.
abbrev pub no_token : Token
no_token = record { text = 0; lineno = 0; column = 0; len = 0 }

-- `start_of_string`
abbrev pub start_of_string : State → State → Bool
start_of_string in_delim in_string = true
start_of_string in_delim in_single_quote = true
start_of_string in_delim in_double_quote = true
start_of_string _ _ = false

-- `end_of_string`
abbrev pub end_of_string : State → State → Bool
end_of_string in_string in_delim = true
end_of_string in_string in_comment = true
end_of_string in_single_quote in_delim = true
end_of_string in_single_quote in_comment = true
end_of_string in_double_quote in_delim = true
end_of_string in_double_quote in_comment = true
end_of_string _ _ = false

-- `within_string`
abbrev pub within_string : State → State → Bool
within_string in_single_quote in_string = false
within_string in_double_quote in_string = false
within_string _ in_string = true
within_string in_single_quote in_single_quote = true
within_string in_double_quote in_double_quote = true
within_string _ _ = false

-- `char_delim`
abbrev pub char_delim : ℕ → Bool
char_delim c = c == b' ' || c == b'\r' || c == b'\n' || c == b'\t'

-- The `switch` of the loop.
unfoldable pub turn : State → Escape → ℕ → State × Escape
turn in_string escape c =
    if c == b'\\' && is_off escape
    then (in_string, on)
    else if char_delim c
    then (in_delim, escape)
    else if c == b'\''
    then (in_single_quote, escape)
    else if c == b'"'
    then (in_double_quote, escape)
    else if c == b'#'
    then (in_comment, escape)
    else (in_string, escape)
turn in_single_quote escape c = (if c == b'\'' then in_string else in_single_quote, escape)
turn in_double_quote escape c =
    if c == b'\\' && is_off escape
    then (in_double_quote, on)
    else if c == b'"' && is_off escape
    then (in_string, escape)
    else (in_double_quote, escape)
turn in_delim escape c =
    if c == b'\\' && is_off escape
    then (in_delim, on)
    else if c == b'\''
    then (in_single_quote, escape)
    else if c == b'"'
    then (in_double_quote, escape)
    else if c == b'#'
    then (in_comment, escape)
    else if not (char_delim c)
    then (in_string, escape)
    else (in_delim, escape)
turn in_comment escape c = (if c == b'\n' then in_delim else in_comment, escape)

-- The escape is over one character behind its backslash.
abbrev pub unescape : Escape → ℕ → Escape
unescape escape last = if not (is_off escape) && last == b'\\' then off else escape

-- The variables of patty_conf_read.
pub record Reader : Type 0 where
  pub buf : List ℕ
  pub o : ℕ
  pub state : State
  pub escape : Escape
  pub lineno : ℕ
  pub column : ℕ
  pub last : ℕ
  pub token : Token
  pub line : List Token

-- `((char *)file.buf)[o++] = c`
abbrev pub store : Reader → ℕ → Result Reader
store r c =
    if ltb r.o (length r.buf) then ok (record r { buf = set r.buf r.o c; o = r.o + 1 }) else fault

-- `token_save`, behind the NUL.
abbrev pub token_save : Reader → Result Reader
token_save r =
    store r 0 >>= λ s. ok (record s { line = s.line ++ (s.token ∷ []); token = no_token })

-- The position of a character, and the state behind it.
abbrev pub turned : Reader → ℕ → Reader
turned r c =
    let next = turn r.state r.escape c in
    record r {
      lineno = if c == b'\n' then r.lineno + 1 else r.lineno;
      column = if c == b'\n' then 1 else r.column + 1;
      state = next.0;
      escape = next.1;
    }

-- `token_start`, at the start of a string.
abbrev pub started : State → Reader → Reader
started old r =
    if start_of_string old r.state
    then record r { token = record { text = r.o; lineno = r.lineno; column = r.column; len = 0 } }
    else r

-- A character of a string is stored unless it is escaped; behind a string stands a NUL.
abbrev pub stored : State → Reader → ℕ → Result Reader
stored old r c =
    if within_string old r.state
    then (if is_off r.escape
        then (store r c >>= λ s. ok (record s { token = record s.token { len = s.token.len + 1 } }))
        else ok r)
    else if end_of_string old r.state
    then token_save r
    else ok r

abbrev pub is_empty {ℓ} : {A : Type ℓ} → List A → Bool
is_empty [] = true
is_empty (x ∷ xs) = false

abbrev pub reader_start : List ℕ → Reader
reader_start contents = record {
  buf = contents;
  o = 0;
  state = in_string;
  escape = off;
  lineno = 1;
  column = 0;
  last = 0;
  token = record { text = 0; lineno = 1; column = 0; len = 0 };
  line = [];
}

-- What a handler returns: its context afterwards, or a value below zero.
abbrev pub accepted {ℓ} : {C : Type ℓ} → Option C → Result C
accepted none = err stale
accepted (some ctx) = ok ctx

-- The handler is called with the buffer, which it is taken to leave as it is, and the tokens of a
-- line. Allocation is taken to succeed.
module _ {C : Type 0} (handler : List ℕ → List Token → C → Option C) where
  -- The handler, if there are tokens; the next line has none.
  abbrev pub end_line : Reader → C → Result (Reader × C)
  end_line r ctx =
      if is_empty r.line
      then ok (r, ctx)
      else (accepted (handler r.buf r.line ctx) >>= λ after. ok (record r { line = [] }, after))

  -- One round of the loop.
  unfoldable pub read_char : Reader → C → ℕ → Result (Reader × C)
  unfolding turn
  read_char r ctx c = stored r.state (started r.state (turned r c)) c >>= λ s.
      (if c == b'\n' && is_off s.escape then end_line s ctx else ok (s, ctx)) >>= λ t.
      ok (record t.0 { escape = unescape t.0.escape t.0.last; last = c }, t.1)

  -- The loop from `i` on, with `rounds` characters to go.
  unfoldable pub read_loop : ℕ → ℕ → Reader → C → Result (Reader × C)
  unfolding read_char
  read_loop zero i r ctx = ok (r, ctx)
  read_loop (suc rounds) i r ctx =
      read r.buf i >>= λ c. read_char r ctx c >>= λ s. read_loop rounds (i + 1) s.0 s.1

  -- patty_conf_read of a file with these contents: the context behind the handler's calls.
  unfoldable pub conf_read : C → List ℕ → Result C
  unfolding read_loop
  conf_read ctx contents = read_loop (length contents) 0 (reader_start contents) ctx >>= λ s.
      (if s.0.token.len == 0 then ok s.0 else token_save s.0) >>= λ r.
      end_line r s.1 >>= λ t. ok t.1
