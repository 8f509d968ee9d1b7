-- ===== src/Lists/Tests.antt =====
-- Tests of the linked list.
use patty.Prelude.{List, [], refl, some, ℕ, ◌∷◌, ◌≡◌}
use patty.Result.{Result, ok, ◌>>=◌}
use patty.Lists.{
  append_behind, append_by, each_from, list_each, list_index, list_new, list_shift, list_splice,
  shift_at, shift_by, splice_by, splice_from,
}
use patty.Lists.Appended.{append_all}
use patty.Lists.Indexed.{index-append_all}

index-append_all_example :
    (append_all {A = ℕ} list_new (4 ∷ 5 ∷ 6 ∷ []) >>= λ list. list_index list 2) ≡ ok (some 6)
index-append_all_example = index-append_all (4 ∷ 5 ∷ 6 ∷ []) 2

-- Two items are taken off at the front.
shifted : Result (List ℕ)
unfolding append_all append_by append_behind shift_at shift_by each_from
shifted = append_all {A = ℕ} list_new (4 ∷ 5 ∷ 6 ∷ []) >>= λ list.
    list_shift list >>= λ one. list_shift one.1 >>= λ two. list_each two.1

shifted_is : shifted ≡ ok (6 ∷ [])
unfolding shifted append_all append_by append_behind shift_at shift_by each_from
shifted_is = refl

-- The item at the front of what patty_list_shift has left is one with a `prev` that is set.
spliced : Result (List ℕ)
unfolding append_all append_by append_behind shift_at shift_by splice_from splice_by each_from
spliced = append_all {A = ℕ} list_new (4 ∷ 5 ∷ 6 ∷ []) >>= λ list.
    list_shift list >>= λ one. list_splice one.1 0 >>= λ two. list_each two.1

spliced_is : spliced ≡ ok (6 ∷ [])
unfolding spliced
spliced_is = refl

-- An item that is alone stays in the list.
alone : Result (List ℕ)
unfolding append_all append_by append_behind shift_at shift_by splice_from splice_by each_from
alone = append_all {A = ℕ} list_new (4 ∷ 5 ∷ []) >>= λ list.
    list_shift list >>= λ one. list_splice one.1 0 >>= λ two. list_each two.1

alone_is : alone ≡ ok (5 ∷ [])
unfolding alone
alone_is = refl
