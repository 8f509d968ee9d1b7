-- ===== src/Lists/Appended.antt =====
-- Linked lists that patty_list_append has built, and what patty_list_each goes through.
use patty.Prelude.{
  List, Option, [], ap, append-nil, append_assoc, arith, length, length-append, none, refl, set,
  some, subst, suc, sym, zero, ℕ, ◌++◌, ◌+◌, ◌∙◌, ◌∷◌, ◌≡◌, ◌≤◌,
}
use patty.Result.{Result, ok, ◌>>=◌}
use patty.Lists.{
  Chain, Item, append_behind, append_by, each_from, item_at, item_new, list_append, list_each,
  list_new, unset,
}

-- The values are appended, one by one.
unfoldable pub append_all : {A : Type 0} → Chain A → List A → Result (Chain A)
unfolding append_by append_behind
append_all list [] = ok list
append_all list (v ∷ vs) = list_append list v >>= λ longer. append_all longer vs

module _ {A : Type 0} where
  pub item_at-behind :
      (before : List (Option (Item A))) (item : Item A) (rest : List (Option (Item A)))
      → item_at (before ++ (some item ∷ rest)) (length before) ≡ ok item
  unfolding item_at
  item_at-behind [] item rest = refl
  item_at-behind (none ∷ before) item rest = item_at-behind before item rest
  item_at-behind (some b ∷ before) item rest = item_at-behind before item rest

  -- The address of the first of the values, if they stand from `k` on.
  abbrev pub start_of : ℕ → List A → Option ℕ
  start_of k [] = none
  start_of k (v ∷ vs) = some k

  -- The item of a value at the address `k`.
  abbrev pub item_of : ℕ → A → List A → Option (Item A)
  item_of k v vs = some (record { prev = unset; next = start_of (suc k) vs; value = v })

  -- The items of the values, from the address `k` on.
  abbrev pub laid : ℕ → List A → List (Option (Item A))
  laid k [] = []
  laid k (v ∷ vs) = item_of k v vs ∷ laid (suc k) vs

  pub item_at-laid :
      (k : ℕ) (before : List (Option (Item A))) (v : A) (vs : List A)
      → length before ≡ k
      → item_at (before ++ laid k (v ∷ vs)) k
        ≡ ok (record { prev = unset; next = start_of (suc k) vs; value = v })
  item_at-laid k before v vs at =
      subst
        (λ i.
          item_at (before ++ laid k (v ∷ vs)) i
          ≡ ok (record { prev = unset; next = start_of (suc k) vs; value = v }))
        at (item_at-behind before _ (laid (suc k) vs))

  abbrev pub last_of : A → List A → A
  last_of v [] = v
  last_of v (w ∷ vs) = last_of w vs

  length-laid : (k : ℕ) (vs : List A) → length (laid k vs) ≡ length vs
  length-laid k [] = refl
  length-laid k (v ∷ vs) = ap suc (length-laid (suc k) vs)

  laid_last :
      (k : ℕ) (v : A) (vs : List A)
      → item_at (laid k (v ∷ vs)) (length vs) ≡ ok (item_new (last_of v vs))
  unfolding item_at
  laid_last k v [] = refl
  laid_last k v (w ∷ vs) = laid_last (suc k) w vs

  laid_more :
      (k n : ℕ) (v w : A) (vs : List A)
      → n ≡ suc k + length vs
      → set
            (laid k (v ∷ vs))
            (length vs)
            (some (record { prev = unset; next = some n; value = last_of v vs }))
          ++ (some (item_new w) ∷ [])
        ≡ laid k (v ∷ (vs ++ (w ∷ [])))
  laid_more k n v w [] h =
      let e : n ≡ suc k = omega (arith, h) in
      ap (λ i. some (record { prev = unset; next = some i; value = v }) ∷ (some (item_new w) ∷ []))
        e
  laid_more k n v w (u ∷ vs) h =
      ap (λ xs. some (record { prev = unset; next = some (suc k); value = v }) ∷ xs)
        (laid_more (suc k) n u w vs (omega (arith, h)))

  -- The list of the values v and vs.
  abbrev pub chain_of : A → List A → Chain A
  chain_of v vs = record {
    items = laid 0 (v ∷ vs);
    list_length = suc (length vs);
    first = some 0;
    last = some (length vs);
  }

  append-chain_of :
      (v w : A) (vs : List A) → list_append (chain_of v vs) w ≡ ok (chain_of v (vs ++ (w ∷ [])))
  unfolding append_by append_behind
  append-chain_of v w vs =
      let one_more : length vs + 1 ≡ suc (length vs) = omega arith in
      let two_more : suc (length vs) + 1 ≡ suc (suc (length vs)) = omega arith in
      rw (
        laid_last 0 v vs,
        length-laid 1 vs,
        laid_more 0 (suc (length vs)) v w vs (omega arith),
        length-append vs (w ∷ []),
        two_more,
        one_more,
      )

  pub append_all-chain_of :
      (v : A) (vs ws : List A) → append_all (chain_of v vs) ws ≡ ok (chain_of v (vs ++ ws))
  unfolding append_all
  append_all-chain_of v vs [] = ap (λ xs. ok (chain_of v xs)) (sym (append-nil vs))
  append_all-chain_of v vs (w ∷ ws) =
      ap (λ r. r >>= λ longer. append_all longer ws) (append-chain_of v w vs)
      ∙ append_all-chain_of v (vs ++ (w ∷ [])) ws
      ∙ ap (λ xs. ok (chain_of v xs)) (append_assoc vs (w ∷ []) ws)

  each_from-laid :
      (fuel k : ℕ) (before : List (Option (Item A))) (vs : List A)
      → length before ≡ k
      → length vs ≤ fuel
      → each_from fuel (before ++ laid k vs) (start_of k vs) ≡ ok vs
  unfolding each_from
  each_from-laid fuel k before [] at h = refl
  each_from-laid zero k before (v ∷ vs) at h = ground arith
  each_from-laid (suc fuel) k before (v ∷ vs) at h =
      let rest : each_from fuel (before ++ laid k (v ∷ vs)) (start_of (suc k) vs) ≡ ok vs =
        subst (λ items. each_from fuel items (start_of (suc k) vs) ≡ ok vs)
          (append_assoc before (item_of k v vs ∷ []) (laid (suc k) vs))
          (each_from-laid fuel (suc k) (before ++ (item_of k v vs ∷ [])) vs
            (omega (arith, at, length-append before (item_of k v vs ∷ []))) (omega (arith, h))) in
      rw (item_at-laid k before v vs at, rest)

  -- What patty_list_append has put into a new list, patty_list_each goes through in that order.
  pub each-append_all : (vs : List A) → (append_all list_new vs >>= list_each) ≡ ok vs
  unfolding append_all append_by each_from
  each-append_all [] = refl
  each-append_all (v ∷ vs) =
      ap (λ r. r >>= list_each) (append_all-chain_of v [] vs)
      ∙ each_from-laid (length (laid 0 (v ∷ vs))) 0 [] (v ∷ vs) refl
          (omega (arith, length-laid 1 vs))
