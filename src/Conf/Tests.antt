-- ===== src/Conf/Tests.antt =====
-- Tests of the reader of configuration files.
use patty.Prelude.{List, Option, [], arith, map, refl, some, ℕ, ◌++◌, ◌∷◌, ◌≡◌}
use patty.Result.{fault, ok}
use patty.Conf.{Token, conf_read}
use patty.Conf.Steps.{seen_by}
use patty.Conf.Quoted.{
  IsFile, collect, conf_read-written, cons, end, final, line, next, nil, written,
}
use patty.Conf.Comments.{conf_read-comment, cons, nil}
use patty.Conf.Unended.{conf_read-fault, cons, nil}
use patty.Conf.Slices.{slice}
use patty.Conf.Words.{words_read}
use patty.Conf.InPlace.{conf_read-words_read}

-- 'if' 'a b'
abbrev words : List (List ℕ)
words = (b'i' ∷ b'f' ∷ []) ∷ (b'a' ∷ b' ' ∷ b'b' ∷ []) ∷ []

words-IsFile : IsFile (words ∷ [])
words-IsFile =
    line (next (cons refl (cons refl nil)) (final (cons refl (cons refl (cons refl nil))))) end

conf_read-written_example : conf_read (seen_by collect) [] (written (words ∷ [])) ≡ ok (words ∷ [])
conf_read-written_example = conf_read-written words [] words-IsFile

conf_read-comment_example :
    conf_read (seen_by collect) [] (b'#' ∷ ((b'x' ∷ []) ++ (b'\n' ∷ written (words ∷ []))))
    ≡ ok (([] ∷ []) ∷ words ∷ [])
conf_read-comment_example = conf_read-comment (b'x' ∷ []) words [] (cons refl nil) words-IsFile

conf_read-fault_example : conf_read (seen_by collect) [] (b'i' ∷ b'f' ∷ []) ≡ fault
conf_read-fault_example =
    conf_read-fault collect [] (b'i' ∷ b'f' ∷ []) (cons refl (cons refl nil)) (omega arith)

abbrev plain_line : List ℕ
plain_line = b'i' ∷ b'f' ∷ b' ' ∷ b'"' ∷ b'a' ∷ b' ' ∷ b'"' ∷ []

conf_read-words_read_example :
    conf_read (seen_by collect) [] (plain_line ++ (b'\n' ∷ []))
    ≡ words_read collect [] (plain_line ++ (b'\n' ∷ []))
conf_read-words_read_example = conf_read-words_read collect [] plain_line

conf_read_double :
    conf_read (seen_by collect) [] (plain_line ++ (b'\n' ∷ []))
    ≡ ok (((b'i' ∷ b'f' ∷ []) ∷ (b'a' ∷ b' ' ∷ []) ∷ []) ∷ [])
unfolding conf_read slice
conf_read_double = refl

-- A backslash takes the character behind it away.
conf_read_escape :
    conf_read (seen_by collect) [] (b'a' ∷ b'\\' ∷ b'b' ∷ b'c' ∷ b'\n' ∷ [])
    ≡ ok (((b'a' ∷ b'c' ∷ []) ∷ []) ∷ [])
unfolding conf_read slice
conf_read_escape = refl

-- The second line begins in column 2.
columns : List ℕ → List Token → List ℕ → Option (List ℕ)
columns buf l seen = some (seen ++ map (λ (t : Token). t.column) l)

conf_read_column : conf_read columns [] (b'a' ∷ b'\n' ∷ b'b' ∷ b'\n' ∷ []) ≡ ok (0 ∷ 2 ∷ [])
unfolding conf_read columns
conf_read_column = refl
