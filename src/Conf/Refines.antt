-- ===== src/Conf/Refines.antt =====
-- The reader in its buffer does what the reader of texts does.
use patty.Prelude.{
  Bool, List, [], ap, arith, drop, drop-suc, false, length, length-set, map, refl, set, subst, suc,
  true, ℕ, ◌++◌, ◌+◌, ◌<◌, ◌∙◌, ◌∷◌, ◌≡◌, ◌≤◌,
}
use patty.Conf.{Escape, Reader, State, Token, is_empty, no_token}
use patty.Conf.Words.{Words}
use patty.Conf.States.{is_quote, is_string}
use patty.Conf.Slices.{drop-set_before, slice, slice-set_behind, slice-set_next, slice_none}

-- The text of a token, which the code hands on as a pointer.
abbrev pub token_text : List ℕ → Token → List ℕ
token_text buf t = slice buf t.text t.len

-- Saved tokens end before `o`, and have these texts.
pub data Texts (buf : List ℕ) (o : ℕ) : List Token → List (List ℕ) → Type 0 where
  none_saved : Texts buf o [] []
  saved :
      (t : Token) {line : List Token} {texts : List (List ℕ)}
      → t.text + t.len ≤ o
      → Texts buf o line texts
      → Texts buf o (t ∷ line) (token_text buf t ∷ texts)

-- The variables of the reader at `i` before `rest`, and the texts that they stand for. `open_string`
-- tells whether a string is being read, `room` whether something was not stored.
pub record Holds (buf : List ℕ) (o : ℕ) (token : Token) (line : List Token) (current : List ℕ)
    (texts : List (List ℕ)) (i : ℕ) (rest : List ℕ) (open_string room : Bool) : Type 0 where
  pub unread : drop i buf ≡ rest
  pub size : length buf ≡ i + length rest
  pub behind : o ≤ i
  pub room_left : room ≡ true → o < i
  pub line_is : Texts buf o line texts
  pub current_is : token_text buf token ≡ current
  pub in_range : token.text + token.len ≤ o
  pub touches : open_string ≡ true → token.text + token.len ≡ o
  pub nothing : open_string ≡ false → token.len ≡ 0

abbrev pub reader_of : List ℕ → ℕ → State → Escape → ℕ → ℕ → ℕ → Token → List Token → Reader
reader_of buf o state escape lineno column last token line = record {
  buf = buf;
  o = o;
  state = state;
  escape = escape;
  lineno = lineno;
  column = column;
  last = last;
  token = token;
  line = line;
}

abbrev pub words_of : State → Escape → ℕ → List ℕ → List (List ℕ) → Words
words_of state escape last current texts = record {
  state = state;
  escape = escape;
  last = last;
  current = current;
  line = texts;
}

pub data Refines (i : ℕ) (rest : List ℕ) : State → Reader → Words → Type 0 where
  refines :
      (buf : List ℕ) (o : ℕ) (state : State) (escape : Escape) (lineno column last : ℕ)
      (token : Token) (line : List Token) (current : List ℕ) (texts : List (List ℕ))
      → Holds buf o token line current texts i rest (is_string state) (is_quote state)
      → Refines i rest state
          (reader_of buf o state escape lineno column last token line)
          (words_of state escape last current texts)

Texts-append :
    {buf : List ℕ} {o : ℕ} {line : List Token} {texts : List (List ℕ)} (t : Token)
    → t.text + t.len ≤ o
    → Texts buf o line texts
    → Texts buf o (line ++ (t ∷ [])) (texts ++ (token_text buf t ∷ []))
Texts-append t h none_saved = saved t h none_saved
Texts-append t h (saved u k rest) = saved u k (Texts-append t h rest)

Texts-set :
    {buf : List ℕ} {o : ℕ} {line : List Token} {texts : List (List ℕ)} (v : ℕ)
    → Texts buf o line texts
    → Texts (set buf o v) (o + 1) line texts
Texts-set v none_saved = none_saved
Texts-set {buf} {o} v (saved t h rest) =
    rw (← slice-set_behind buf t.text t.len o v h) (saved t (omega arith) (Texts-set v rest))

-- The string that has been read is saved, with a NUL behind it.
pub Texts-save :
    {buf : List ℕ} {o : ℕ} {line : List Token} {texts : List (List ℕ)} (token : Token)
    {current : List ℕ}
    → token.text + token.len ≤ o
    → token_text buf token ≡ current
    → Texts buf o line texts
    → Texts (set buf o 0) (o + 1) (line ++ (token ∷ [])) (texts ++ (current ∷ []))
Texts-save {buf} {o} {line} {texts} token h e k = Texts-set 0 (
    subst (λ text. Texts buf o (line ++ (token ∷ [])) (texts ++ (text ∷ []))) e
      (Texts-append token h k))

pub map-token_text :
    {buf : List ℕ} {o : ℕ} {line : List Token} {texts : List (List ℕ)}
    → Texts buf o line texts
    → map (token_text buf) line ≡ texts
map-token_text none_saved = refl
map-token_text {buf} (saved t h rest) = ap (◌∷◌ (token_text buf t)) (map-token_text rest)

pub is_empty-Texts :
    {buf : List ℕ} {o : ℕ} {line : List Token} {texts : List (List ℕ)}
    → Texts buf o line texts
    → is_empty line ≡ is_empty texts
is_empty-Texts none_saved = refl
is_empty-Texts (saved t h rest) = refl

module _ {buf : List ℕ} {o : ℕ} {token : Token} {line : List Token} {current : List ℕ}
    {texts : List (List ℕ)} {i c : ℕ} {rest : List ℕ} {open_string room : Bool}
    (h : Holds buf o token line current texts i (c ∷ rest) open_string room) where
  pub stores_at : o < length buf
  stores_at = omega (arith, h.size, h.behind)

  next_size : length buf ≡ (i + 1) + length rest
  next_size = omega (arith, h.size)

  next_unread : drop (i + 1) buf ≡ rest
  next_unread = let e : i + 1 ≡ suc i = omega arith in rw e (drop-suc buf i h.unread)

  -- A character is stored in the string that is being read.
  pub Holds-store :
      open_string ≡ true
      → (room_left : Bool) → (room_left ≡ true → o < i)
      → Holds
          (set buf o c)
          (o + 1)
          (record token { len = token.len + 1 })
          line
          (current ++ (c ∷ []))
          texts
          (i + 1)
          rest
          true
          room_left
  Holds-store t room_left more = record {
    unread = drop-set_before buf o (i + 1) c (omega (arith, h.behind)) ∙ next_unread;
    size = length-set buf o c ∙ next_size;
    behind = omega (arith, h.behind);
    room_left = λ e. omega (arith, more e);
    line_is = Texts-set c h.line_is;
    current_is =
        slice-set_next buf token.text token.len o c (h.touches t) stores_at
        ∙ ap (λ text. text ++ (c ∷ [])) h.current_is;
    in_range = omega (arith, h.touches t);
    touches = λ _. omega (arith, h.touches t);
    nothing = λ e. cc;
  }

  -- The string that is being read is saved, with a NUL behind it.
  pub Holds-save :
      open_string ≡ true
      → Holds
          (set buf o 0)
          (o + 1)
          no_token
          (line ++ (token ∷ []))
          []
          (texts ++ (current ∷ []))
          (i + 1)
          rest
          false
          false
  Holds-save t = record {
    unread = drop-set_before buf o (i + 1) 0 (omega (arith, h.behind)) ∙ next_unread;
    size = length-set buf o 0 ∙ next_size;
    behind = omega (arith, h.behind);
    room_left = λ e. cc;
    line_is = Texts-save token h.in_range h.current_is h.line_is;
    current_is = slice_none (set buf o 0) 0;
    in_range = omega arith;
    touches = λ e. cc;
    nothing = λ e. refl;
  }

  -- Nothing is stored.
  pub Holds-skip :
      (now_open room_left : Bool)
      → (now_open ≡ true → open_string ≡ true)
      → (now_open ≡ false → open_string ≡ false)
      → Holds buf o token line current texts (i + 1) rest now_open room_left
  Holds-skip now_open room_left f g = record {
    unread = next_unread;
    size = next_size;
    behind = omega (arith, h.behind);
    room_left = λ _. omega (arith, h.behind);
    line_is = h.line_is;
    current_is = h.current_is;
    in_range = h.in_range;
    touches = λ e. h.touches (f e);
    nothing = λ e. h.nothing (g e);
  }

  pub Holds-start :
      (lineno column : ℕ)
      → Holds buf o
          (record { text = o; lineno = lineno; column = column; len = 0 })
          line
          []
          texts
          i
          (c ∷ rest)
          true
          room
  Holds-start lineno column = record {
    unread = h.unread;
    size = h.size;
    behind = h.behind;
    room_left = h.room_left;
    line_is = h.line_is;
    current_is = slice_none buf o;
    in_range = omega arith;
    touches = λ _. omega arith;
    nothing = λ e. cc;
  }

-- The tokens of a line have gone to the handler.
pub Holds-sent :
    {buf : List ℕ} {o : ℕ} {token : Token} {line : List Token} {current : List ℕ}
    {texts : List (List ℕ)} {i : ℕ} {rest : List ℕ} {open_string room : Bool}
    → Holds buf o token line current texts i rest open_string room
    → Holds buf o token [] current [] i rest open_string room
Holds-sent h = record {
  unread = h.unread;
  size = h.size;
  behind = h.behind;
  room_left = h.room_left;
  line_is = none_saved;
  current_is = h.current_is;
  in_range = h.in_range;
  touches = h.touches;
  nothing = h.nothing;
}
