-- ===== src/Conf/Slices.antt =====
-- Ranges of a buffer, and writes behind them.
use patty.Prelude.{
  List, [], ap, arith, drop, length, length-drop, length-take, refl, set, suc, take, take-set, zero,
  ℕ, ◌++◌, ◌+◌, ◌<◌, ◌∙◌, ◌∷◌, ◌≡◌, ◌≤◌,
}

module _ {ℓ} {A : Type ℓ} where
  unfoldable pub slice : List A → ℕ → ℕ → List A
  slice buf text len = take len (drop text buf)

  take-set_behind : (xs : List A) (n o : ℕ) (v : A) → n ≤ o → take n (set xs o v) ≡ take n xs
  take-set_behind xs zero o v h = refl
  take-set_behind [] (suc n) o v h = refl
  take-set_behind (x ∷ xs) (suc n) zero v h = absurd (omega arith)
  take-set_behind (x ∷ xs) (suc n) (suc o) v h = ap (◌∷◌ x) (take-set_behind xs n o v (omega arith))

  -- A write behind a range leaves it as it is.
  pub slice-set_behind :
      (buf : List A) (text len o : ℕ) (v : A)
      → text + len ≤ o
      → slice (set buf o v) text len ≡ slice buf text len
  unfolding slice
  slice-set_behind buf zero len o v h = take-set_behind buf len o v (omega arith)
  slice-set_behind [] (suc text) len o v h = refl
  slice-set_behind (x ∷ buf) (suc text) len zero v h = absurd (omega arith)
  slice-set_behind (x ∷ buf) (suc text) len (suc o) v h =
      slice-set_behind buf text len o v (omega arith)

  -- A write just behind a range makes it longer.
  pub slice-set_next :
      (buf : List A) (text len o : ℕ) (v : A)
      → text + len ≡ o
      → o < length buf
      → slice (set buf o v) text (len + 1) ≡ slice buf text len ++ (v ∷ [])
  unfolding slice
  slice-set_next [] text len o v e h = absurd (omega arith)
  slice-set_next (x ∷ buf) zero len o v e h =
      let same : o ≡ len = omega arith in
      let next : len + 1 ≡ suc len = omega arith in
      rw (same, next) (take-set (x ∷ buf) len v (omega arith))
  slice-set_next (x ∷ buf) (suc text) len zero v e h = absurd (omega arith)
  slice-set_next (x ∷ buf) (suc text) len (suc o) v e h =
      slice-set_next buf text len o v (omega arith) (omega arith)

  -- A write before what is left to read leaves it as it is.
  pub drop-set_before : (buf : List A) (o j : ℕ) (v : A) → o < j → drop j (set buf o v) ≡ drop j buf
  drop-set_before buf o zero v h = absurd (omega arith)
  drop-set_before [] o (suc j) v h = refl
  drop-set_before (x ∷ buf) zero (suc j) v h = refl
  drop-set_before (x ∷ buf) (suc o) (suc j) v h = drop-set_before buf o j v (omega arith)

  pub length-slice :
      (buf : List A) (text len : ℕ) → text + len ≤ length buf → length (slice buf text len) ≡ len
  unfolding slice
  length-slice buf text len h =
      length-take len (drop text buf) ∙ omega (arith, length-drop text buf)

  pub slice_none : (buf : List A) (text : ℕ) → slice buf text 0 ≡ []
  unfolding slice
  slice_none buf text = refl
