-- ===== src/Conf/States.antt =====
-- The tests on the state before and behind a character.
use patty.Prelude.{Bool, arith, false, refl, true, ℕ, ◌≡◌}
use patty.Conf.{
  Escape, State, end_of_string, in_comment, in_delim, in_double_quote, in_single_quote, in_string,
  start_of_string, turn, within_string,
}

abbrev pub is_string : State → Bool
is_string in_delim = false
is_string in_comment = false
is_string _ = true

abbrev pub is_quote : State → Bool
is_quote in_single_quote = true
is_quote in_double_quote = true
is_quote _ = false

-- What the tests on two states say of them.
pub within-is_string : (old new : State) → within_string old new ≡ true → is_string new ≡ true
within-is_string in_string in_string _ = refl
within-is_string in_string in_single_quote h = cc
within-is_string in_string in_double_quote h = cc
within-is_string in_string in_delim h = cc
within-is_string in_string in_comment h = cc
within-is_string in_single_quote in_string h = cc
within-is_string in_single_quote in_single_quote _ = refl
within-is_string in_single_quote in_double_quote h = cc
within-is_string in_single_quote in_delim h = cc
within-is_string in_single_quote in_comment h = cc
within-is_string in_double_quote in_string h = cc
within-is_string in_double_quote in_single_quote h = cc
within-is_string in_double_quote in_double_quote _ = refl
within-is_string in_double_quote in_delim h = cc
within-is_string in_double_quote in_comment h = cc
within-is_string in_delim in_string _ = refl
within-is_string in_delim in_single_quote h = cc
within-is_string in_delim in_double_quote h = cc
within-is_string in_delim in_delim h = cc
within-is_string in_delim in_comment h = cc
within-is_string in_comment in_string _ = refl
within-is_string in_comment in_single_quote h = cc
within-is_string in_comment in_double_quote h = cc
within-is_string in_comment in_delim h = cc
within-is_string in_comment in_comment h = cc

pub within-is_quote :
    (old new : State) → within_string old new ≡ true → is_quote new ≡ true → is_quote old ≡ true
within-is_quote in_string in_string _ h = cc
within-is_quote in_string in_single_quote h _ = cc
within-is_quote in_string in_double_quote h _ = cc
within-is_quote in_string in_delim h _ = cc
within-is_quote in_string in_comment h _ = cc
within-is_quote in_single_quote in_string h _ = cc
within-is_quote in_single_quote in_single_quote _ _ = refl
within-is_quote in_single_quote in_double_quote h _ = cc
within-is_quote in_single_quote in_delim h _ = cc
within-is_quote in_single_quote in_comment h _ = cc
within-is_quote in_double_quote in_string h _ = cc
within-is_quote in_double_quote in_single_quote h _ = cc
within-is_quote in_double_quote in_double_quote _ _ = refl
within-is_quote in_double_quote in_delim h _ = cc
within-is_quote in_double_quote in_comment h _ = cc
within-is_quote in_delim in_string _ h = cc
within-is_quote in_delim in_single_quote h _ = cc
within-is_quote in_delim in_double_quote h _ = cc
within-is_quote in_delim in_delim h _ = cc
within-is_quote in_delim in_comment h _ = cc
within-is_quote in_comment in_string _ h = cc
within-is_quote in_comment in_single_quote h _ = cc
within-is_quote in_comment in_double_quote h _ = cc
within-is_quote in_comment in_delim h _ = cc
within-is_quote in_comment in_comment h _ = cc

pub end-is_string_old : (old new : State) → end_of_string old new ≡ true → is_string old ≡ true
end-is_string_old in_string in_string h = cc
end-is_string_old in_string in_single_quote h = cc
end-is_string_old in_string in_double_quote h = cc
end-is_string_old in_string in_delim _ = refl
end-is_string_old in_string in_comment _ = refl
end-is_string_old in_single_quote in_string h = cc
end-is_string_old in_single_quote in_single_quote h = cc
end-is_string_old in_single_quote in_double_quote h = cc
end-is_string_old in_single_quote in_delim _ = refl
end-is_string_old in_single_quote in_comment _ = refl
end-is_string_old in_double_quote in_string h = cc
end-is_string_old in_double_quote in_single_quote h = cc
end-is_string_old in_double_quote in_double_quote h = cc
end-is_string_old in_double_quote in_delim _ = refl
end-is_string_old in_double_quote in_comment _ = refl
end-is_string_old in_delim in_string h = cc
end-is_string_old in_delim in_single_quote h = cc
end-is_string_old in_delim in_double_quote h = cc
end-is_string_old in_delim in_delim h = cc
end-is_string_old in_delim in_comment h = cc
end-is_string_old in_comment in_string h = cc
end-is_string_old in_comment in_single_quote h = cc
end-is_string_old in_comment in_double_quote h = cc
end-is_string_old in_comment in_delim h = cc
end-is_string_old in_comment in_comment h = cc

pub end-is_string_new : (old new : State) → end_of_string old new ≡ true → is_string new ≡ false
end-is_string_new in_string in_string h = cc
end-is_string_new in_string in_single_quote h = cc
end-is_string_new in_string in_double_quote h = cc
end-is_string_new in_string in_delim _ = refl
end-is_string_new in_string in_comment _ = refl
end-is_string_new in_single_quote in_string h = cc
end-is_string_new in_single_quote in_single_quote h = cc
end-is_string_new in_single_quote in_double_quote h = cc
end-is_string_new in_single_quote in_delim _ = refl
end-is_string_new in_single_quote in_comment _ = refl
end-is_string_new in_double_quote in_string h = cc
end-is_string_new in_double_quote in_single_quote h = cc
end-is_string_new in_double_quote in_double_quote h = cc
end-is_string_new in_double_quote in_delim _ = refl
end-is_string_new in_double_quote in_comment _ = refl
end-is_string_new in_delim in_string h = cc
end-is_string_new in_delim in_single_quote h = cc
end-is_string_new in_delim in_double_quote h = cc
end-is_string_new in_delim in_delim h = cc
end-is_string_new in_delim in_comment h = cc
end-is_string_new in_comment in_string h = cc
end-is_string_new in_comment in_single_quote h = cc
end-is_string_new in_comment in_double_quote h = cc
end-is_string_new in_comment in_delim h = cc
end-is_string_new in_comment in_comment h = cc

pub neither-is_string :
    (old new : State)
    → end_of_string old new ≡ false
    → is_string new ≡ false
    → is_string old ≡ false
neither-is_string in_string in_string _ h = cc
neither-is_string in_string in_single_quote _ h = cc
neither-is_string in_string in_double_quote _ h = cc
neither-is_string in_string in_delim h _ = cc
neither-is_string in_string in_comment h _ = cc
neither-is_string in_single_quote in_string _ h = cc
neither-is_string in_single_quote in_single_quote _ h = cc
neither-is_string in_single_quote in_double_quote _ h = cc
neither-is_string in_single_quote in_delim h _ = cc
neither-is_string in_single_quote in_comment h _ = cc
neither-is_string in_double_quote in_string _ h = cc
neither-is_string in_double_quote in_single_quote _ h = cc
neither-is_string in_double_quote in_double_quote _ h = cc
neither-is_string in_double_quote in_delim h _ = cc
neither-is_string in_double_quote in_comment h _ = cc
neither-is_string in_delim in_string _ h = cc
neither-is_string in_delim in_single_quote _ h = cc
neither-is_string in_delim in_double_quote _ h = cc
neither-is_string in_delim in_delim _ _ = refl
neither-is_string in_delim in_comment _ _ = refl
neither-is_string in_comment in_string _ h = cc
neither-is_string in_comment in_single_quote _ h = cc
neither-is_string in_comment in_double_quote _ h = cc
neither-is_string in_comment in_delim _ _ = refl
neither-is_string in_comment in_comment _ _ = refl

pub start-is_string : (old new : State) → start_of_string old new ≡ true → is_string new ≡ true
start-is_string in_string in_string h = cc
start-is_string in_string in_single_quote h = cc
start-is_string in_string in_double_quote h = cc
start-is_string in_string in_delim h = cc
start-is_string in_string in_comment h = cc
start-is_string in_single_quote in_string h = cc
start-is_string in_single_quote in_single_quote h = cc
start-is_string in_single_quote in_double_quote h = cc
start-is_string in_single_quote in_delim h = cc
start-is_string in_single_quote in_comment h = cc
start-is_string in_double_quote in_string h = cc
start-is_string in_double_quote in_single_quote h = cc
start-is_string in_double_quote in_double_quote h = cc
start-is_string in_double_quote in_delim h = cc
start-is_string in_double_quote in_comment h = cc
start-is_string in_delim in_string _ = refl
start-is_string in_delim in_single_quote _ = refl
start-is_string in_delim in_double_quote _ = refl
start-is_string in_delim in_delim h = cc
start-is_string in_delim in_comment h = cc
start-is_string in_comment in_string h = cc
start-is_string in_comment in_single_quote h = cc
start-is_string in_comment in_double_quote h = cc
start-is_string in_comment in_delim h = cc
start-is_string in_comment in_comment h = cc

pub is_quote-is_string : (state : State) → is_string state ≡ false → is_quote state ≡ false
is_quote-is_string in_string h = refl
is_quote-is_string in_single_quote h = cc
is_quote-is_string in_double_quote h = cc
is_quote-is_string in_delim h = refl
is_quote-is_string in_comment h = refl

-- A string begins at a delimiter.
pub turn-is_string :
    (old : State) (escape : Escape) (c : ℕ)
    → is_string (turn old escape c).0 ≡ true
    → start_of_string old (turn old escape c).0 ≡ false
    → is_string old ≡ true
unfolding turn
turn-is_string in_string escape c h k = refl
turn-is_string in_single_quote escape c h k = refl
turn-is_string in_double_quote escape c h k = refl
turn-is_string in_delim escape c h k = ground arith
turn-is_string in_comment escape c h k = ground arith

-- Behind the end of a line there is a plain string no more.
pub turn_newline :
    (old : State) (escape : Escape)
    → is_string (turn old escape b'\n').0 ≡ true
    → is_quote (turn old escape b'\n').0 ≡ true
unfolding turn
turn_newline in_string escape h = cc
turn_newline in_single_quote escape h = refl
turn_newline in_double_quote escape h = refl
turn_newline in_delim escape h = cc
turn_newline in_comment escape h = cc
