-- ===== src/Conf/Comments.antt =====
-- A file that begins with a comment.
use patty.Prelude.{List, [], ap, append_assoc, false, refl, sym, ℕ, ◌++◌, ◌==◌, ◌∙◌, ◌∷◌, ◌≡◌}
use patty.Result.{ok, ◌>>=◌}
use patty.Conf.{conf_read, in_comment, turn}
use patty.Conf.Words.{word_char, words_end, words_loop, words_read}
use patty.Conf.Steps.{seen_by}
use patty.Conf.Quoted.{
  IsFile, Lines, collect, last_of, later, loop-written, words_at, written, written-snoc,
}
use patty.Conf.InPlace.{conf_read-words_read}

-- The text of a comment.
pub data IsComment : List ℕ → Type 0 where
  nil : IsComment []
  cons : {c : ℕ} {cs : List ℕ} → (c == b'\n') ≡ false → IsComment cs → IsComment (c ∷ cs)

loop-comment :
    (last : ℕ) (texts : List (List ℕ)) (ctx : Lines) {comment : List ℕ} (rest : List ℕ)
    → IsComment comment
    → words_loop collect (words_at in_comment last [] texts) ctx (comment ++ rest)
      ≡ words_loop collect (words_at in_comment (last_of last comment) [] texts) ctx rest
unfolding words_loop word_char turn
loop-comment last texts ctx rest nil = refl
loop-comment last texts ctx rest (cons {c} same_line t) =
    rw (same_line) (loop-comment c texts ctx rest t)

-- A comment at the head of a file is not skipped: the handler is first called with a line of one
-- empty word, and then with the lines of quoted words that follow.
pub conf_read-comment :
    (comment : List ℕ) (l : List (List ℕ)) (ls : Lines)
    → IsComment comment
    → IsFile (l ∷ ls)
    → conf_read (seen_by collect) [] (b'#' ∷ (comment ++ (b'\n' ∷ written (l ∷ ls))))
      ≡ ok (([] ∷ []) ∷ l ∷ ls)
unfolding words_read words_loop word_char turn
conf_read-comment comment l ls c h =
    let (body, e) = written-snoc l ls h in
    let whole : b'#' ∷ (comment ++ (b'\n' ∷ written (l ∷ ls)))
        ≡ (b'#' ∷ (comment ++ (b'\n' ∷ body))) ++ (b'\n' ∷ []) =
      rw (e, append_assoc) refl in
    ap (conf_read (seen_by collect) []) whole
    ∙ conf_read-words_read collect [] (b'#' ∷ (comment ++ (b'\n' ∷ body)))
    ∙ ap (words_read collect []) (sym whole)
    ∙ ap (λ m. m >>= words_end collect)
        (loop-comment b'#' ([] ∷ []) [] (b'\n' ∷ written (l ∷ ls)) c)
    ∙ loop-written b'\n' (([] ∷ []) ∷ []) later h
