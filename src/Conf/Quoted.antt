-- ===== src/Conf/Quoted.antt =====
-- Lines of quoted words, written out and read back.
use patty.Prelude.{
  Bool, List, Option, [], ap, append-nil, append_assoc, arith, false, not, refl, some, sym, true, ℕ,
  ◌&&◌, ◌++◌, ◌==◌, ◌∙◌, ◌∷◌, ◌≡◌,
}
use patty.Result.{ok, ◌>>=◌}
use patty.Conf.{State, conf_read, in_delim, in_single_quote, in_string, is_empty, off, turn}
use patty.Conf.Words.{Words, word_char, words_end, words_loop, words_read}
use patty.Conf.Steps.{seen_by}
use patty.Conf.InPlace.{conf_read-words_read}

-- What a single-quoted word may hold.
abbrev pub is_quotable : ℕ → Bool
is_quotable c = not (c == b'\'') && not (c == b'\n')

pub data IsWord : List ℕ → Type 0 where
  nil : IsWord []
  cons : {c : ℕ} {cs : List ℕ} → is_quotable c ≡ true → IsWord cs → IsWord (c ∷ cs)

-- The words of a line, one at least.
pub data IsLine : List (List ℕ) → Type 0 where
  final : {w : List ℕ} → IsWord w → IsLine (w ∷ [])
  next : {w : List ℕ} {ws : List (List ℕ)} → IsWord w → IsLine ws → IsLine (w ∷ ws)

pub data IsFile : List (List (List ℕ)) → Type 0 where
  end : IsFile []
  line : {l : List (List ℕ)} {ls : List (List (List ℕ))} → IsLine l → IsFile ls → IsFile (l ∷ ls)

-- A word in quotes, before `rest`.
abbrev pub quoted : List ℕ → List ℕ → List ℕ
quoted w rest = b'\'' ∷ (w ++ (b'\'' ∷ rest))

unfoldable pub written_line : List (List ℕ) → List ℕ → List ℕ
written_line [] rest = rest
written_line (w ∷ []) rest = quoted w (b'\n' ∷ rest)
written_line (w ∷ v ∷ ws) rest = quoted w (b' ' ∷ written_line (v ∷ ws) rest)

-- A file of such lines.
unfoldable pub written : List (List (List ℕ)) → List ℕ
unfolding written_line
written [] = []
written (l ∷ ls) = written_line l (written ls)

-- A handler that collects the lines.
abbrev pub collect : List (List ℕ) → List (List (List ℕ)) → Option (List (List (List ℕ)))
collect l ls = some (ls ++ (l ∷ []))

abbrev pub words_at : State → ℕ → List ℕ → List (List ℕ) → Words
words_at state last current texts = record {
  state = state;
  escape = off;
  last = last;
  current = current;
  line = texts;
}

abbrev pub last_of : ℕ → List ℕ → ℕ
last_of last [] = last
last_of last (c ∷ cs) = last_of c cs

abbrev pub Lines : Type 0
Lines = List (List (List ℕ))

-- Where a word may begin.
pub data Begins : State → Type 0 where
  first : Begins in_string
  later : Begins in_delim

loop-word :
    (last : ℕ) (current : List ℕ) (texts : List (List ℕ)) (ctx : Lines) {w : List ℕ} (rest : List ℕ)
    → IsWord w
    → words_loop collect (words_at in_single_quote last current texts) ctx (w ++ rest)
      ≡ words_loop collect (words_at in_single_quote (last_of last w) (current ++ w) texts) ctx rest
unfolding words_loop word_char turn
loop-word last current texts ctx rest nil = rw append-nil refl
loop-word last current texts ctx rest (cons {c} {cs} good t) =
    let inside : (c == b'\'') ≡ false = ground arith in
    let same_line : (c == b'\n') ≡ false = ground arith in
    rw (inside, same_line)
      (loop-word c (current ++ (c ∷ [])) texts ctx rest t ∙ rw append_assoc refl)

loop-quoted :
    {state : State} (last : ℕ) (texts : List (List ℕ)) (ctx : Lines) {w : List ℕ} (rest : List ℕ)
    → Begins state
    → IsWord w
    → words_loop collect (words_at state last [] texts) ctx (quoted w rest)
      ≡ words_loop collect (words_at in_string b'\'' w texts) ctx rest
unfolding words_loop word_char turn
loop-quoted last texts ctx {w} rest first h = loop-word b'\'' [] texts ctx (b'\'' ∷ rest) h
loop-quoted last texts ctx {w} rest later h = loop-word b'\'' [] texts ctx (b'\'' ∷ rest) h

is_empty-snoc : {A : Type 0} (xs : List A) (x : A) → is_empty (xs ++ (x ∷ [])) ≡ false
is_empty-snoc [] x = refl
is_empty-snoc (y ∷ ys) x = refl

loop-line :
    {state : State} (last : ℕ) (texts : List (List ℕ)) (ctx : Lines) {l : List (List ℕ)}
    (rest : List ℕ)
    → Begins state
    → IsLine l
    → words_loop collect (words_at state last [] texts) ctx (written_line l rest)
      ≡ words_loop collect (words_at in_delim b'\n' [] []) (ctx ++ ((texts ++ l) ∷ [])) rest
unfolding words_loop word_char turn written_line
loop-line last texts ctx rest b (final {w} h) =
    loop-quoted last texts ctx (b'\n' ∷ rest) b h ∙ rw (is_empty-snoc texts w) refl
loop-line last texts ctx rest b (next {ws = []} h t) = elim t [ ]
loop-line last texts ctx rest b (next {w} {ws = v ∷ ws} h t) =
    loop-quoted last texts ctx (b' ' ∷ written_line (v ∷ ws) rest) b h
    ∙ loop-line b' ' (texts ++ (w ∷ [])) ctx rest later t
    ∙ rw append_assoc refl

pub loop-written :
    {state : State} (last : ℕ) (ctx : Lines) {ls : Lines}
    → Begins state
    → IsFile ls
    → (words_loop collect (words_at state last [] []) ctx (written ls) >>= words_end collect)
      ≡ ok (ctx ++ ls)
unfolding words_loop written
loop-written last ctx b end = rw append-nil refl
loop-written last ctx b (line {l} {ls} h t) =
    ap (λ m. m >>= words_end collect) (loop-line last [] ctx (written ls) b h)
    ∙ loop-written b'\n' (ctx ++ (l ∷ [])) later t
    ∙ rw append_assoc refl

-- A text whose last character is a newline.
data EndsLine : List ℕ → Type 0 where
  here : EndsLine (b'\n' ∷ [])
  there : {c : ℕ} {cs : List ℕ} → EndsLine cs → EndsLine (c ∷ cs)

EndsLine-snoc : {cs : List ℕ} → EndsLine cs → (body : List ℕ) × (cs ≡ body ++ (b'\n' ∷ []))
EndsLine-snoc here = ([], refl)
EndsLine-snoc (there {c} h) = let (body, e) = EndsLine-snoc h in (c ∷ body, ap (◌∷◌ c) e)

EndsLine-append : (cs : List ℕ) {ds : List ℕ} → EndsLine ds → EndsLine (cs ++ ds)
EndsLine-append [] h = h
EndsLine-append (c ∷ cs) h = there (EndsLine-append cs h)

-- What may stand behind a line.
data Behind : List ℕ → Type 0 where
  nothing : Behind []
  lines : {cs : List ℕ} → EndsLine cs → Behind cs

newline-EndsLine : {rest : List ℕ} → Behind rest → EndsLine (b'\n' ∷ rest)
newline-EndsLine nothing = here
newline-EndsLine (lines h) = there h

written_line-EndsLine :
    {l : List (List ℕ)} {rest : List ℕ} → IsLine l → Behind rest → EndsLine (written_line l rest)
unfolding written_line
written_line-EndsLine (final {w} h) b = there (EndsLine-append w (there (newline-EndsLine b)))
written_line-EndsLine (next {ws = []} h t) b = elim t [ ]
written_line-EndsLine (next {w} {ws = v ∷ ws} h t) b =
    there (EndsLine-append w (there (there (written_line-EndsLine t b))))

written-Behind : {ls : Lines} → IsFile ls → Behind (written ls)
unfolding written
written-Behind end = nothing
written-Behind (line h t) = lines (written_line-EndsLine h (written-Behind t))

pub written-snoc :
    (l : List (List ℕ)) (ls : Lines)
    → IsFile (l ∷ ls)
    → (body : List ℕ) × (written (l ∷ ls) ≡ body ++ (b'\n' ∷ []))
unfolding written
written-snoc l ls (line h t) = EndsLine-snoc (written_line-EndsLine h (written-Behind t))

-- A file of lines of single-quoted words, one word or more on a line with a space between two words,
-- where a word may hold anything but a quote and a newline, is read as those lines: the handler is
-- called once for each line, in order, with the words as they were.
pub conf_read-written :
    (l : List (List ℕ)) (ls : Lines)
    → IsFile (l ∷ ls)
    → conf_read (seen_by collect) [] (written (l ∷ ls)) ≡ ok (l ∷ ls)
unfolding words_read
conf_read-written l ls h =
    let (body, e) = written-snoc l ls h in
    ap (conf_read (seen_by collect) []) e
    ∙ conf_read-words_read collect [] body
    ∙ ap (words_read collect []) (sym e)
    ∙ loop-written 0 [] first h
