-- ===== src/Conf/Unended.antt =====
-- A file without a newline at its end.
use patty.Prelude.{
  Bool, List, Option, [], ap, append-nil, append_assoc, arith, false, if◌then◌else◌, length, ltb,
  not, refl, subst, sym, true, ℕ, ◌&&◌, ◌++◌, ◌<◌, ◌==◌, ◌∙◌, ◌∷◌, ◌≡◌,
}
use patty.Result.{Result, fault, ok, ◌>>=◌}
use patty.Conf.{
  Reader, char_delim, conf_read, end_line, in_string, off, read_loop, reader_start, token_save,
  turn,
}
use patty.Conf.Words.{Words, word_char, words_loop, words_start}
use patty.Conf.Steps.{seen_by}
use patty.Conf.Slices.{length-slice}
use patty.Conf.Refines.{refines}
use patty.Conf.InPlace.{Finish, at_start, finished, read_loop-all}

-- A character that stands for itself outside of quotes.
abbrev pub is_plain : ℕ → Bool
is_plain c =
    not (char_delim c) && not (c == b'\\') && not (c == b'\'') && not (c == b'"') && not (c == b'#')

pub data IsPlain : List ℕ → Type 0 where
  nil : IsPlain []
  cons : {c : ℕ} {cs : List ℕ} → is_plain c ≡ true → IsPlain cs → IsPlain (c ∷ cs)

abbrev plain_at : ℕ → List ℕ → Words
plain_at last current = record {
  state = in_string;
  escape = off;
  last = last;
  current = current;
  line = [];
}

module _ {C : Type 0} (handler : List (List ℕ) → C → Option C) (ctx : C) where
  loop-plain :
      (last : ℕ) (current : List ℕ) {w : List ℕ}
      → IsPlain w
      → (end : ℕ) × (words_loop handler (plain_at last current) ctx w
          ≡ ok (plain_at end (current ++ w), ctx))
  unfolding words_loop word_char turn
  loop-plain last current nil = (last, rw append-nil refl)
  loop-plain last current (cons {c} {cs} good t) =
      let (end, e) = loop-plain c (current ++ (c ∷ [])) t in
      let delim : char_delim c ≡ false = ground arith in
      let slash : (c == b'\\') ≡ false = ground arith in
      let single : (c == b'\'') ≡ false = ground arith in
      let double : (c == b'"') ≡ false = ground arith in
      let hash : (c == b'#') ≡ false = ground arith in
      let same_line : (c == b'\n') ≡ false = ground arith in
      (end, rw (slash, delim, single, double, hash, same_line) (e ∙ rw append_assoc refl))

  Finish-fault :
      {j last : ℕ} {w : List ℕ} {m : Result (Reader × C)}
      → Finish (λ _. Unit {0}) j m (ok (plain_at last w, ctx))
      → length w ≡ j
      → 0 < j
      → (m >>= λ s. (if s.0.token.len == 0 then ok s.0 else token_save s.0) >>= λ r.
          end_line (seen_by handler) r s.1 >>= λ t. ok t.1)
        ≡ fault
  Finish-fault
        (finished _ _ _ (refines buf o state escape lineno column last token line current texts h))
        e some_text =
      let len_is : token.len ≡ length current =
        sym (length-slice buf token.text token.len (omega (arith, h.in_range, h.behind, h.size)))
        ∙ ap length h.current_is in
      let some_len : (token.len == 0) ≡ false = ground arith in
      let full : ltb o (length buf) ≡ false = ground (arith, h.size, h.touches refl) in
      rw (some_len, full) refl

  -- A file that is one word of plain characters, with no newline at its end, makes the reader write
  -- behind the buffer: the NUL behind the last token has no room.
  pub conf_read-fault :
      (w : List ℕ) → IsPlain w → 0 < length w → conf_read (seen_by handler) ctx w ≡ fault
  unfolding conf_read
  conf_read-fault w plain some_text =
      let (end, e) = loop-plain 0 [] plain in
      Finish-fault
        (subst
          (λ n.
            Finish (λ _. Unit {0}) (length w)
              (read_loop (seen_by handler) (length w) 0 (reader_start w) ctx) n)
          e
          (read_loop-all handler w 0 (length w) in_string _ words_start ctx (omega arith)
            (refines _ _ in_string off _ _ _ _ _ _ _ (at_start w))))
        refl some_text
