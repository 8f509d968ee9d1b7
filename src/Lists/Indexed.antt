-- ===== src/Lists/Indexed.antt =====
-- What patty_list_index finds in a list that patty_list_append has built.
use patty.Prelude.{
  Bool-cases, List, Option, [], ap, append_assoc, arith, get_elem?, inl, inr, leb, length,
  length-append, none, refl, some, subst, suc, zero, ℕ, ◌++◌, ◌<◌, ◌∙◌, ◌∷◌, ◌≡◌, ◌≤◌,
}
use patty.Result.{ok, ◌>>=◌}
use patty.Lists.{Item, append_by, index_by, index_from, list_index, list_new}
use patty.Lists.Appended.{append_all, append_all-chain_of, chain_of, item_at-laid, item_of, laid}

module _ {A : Type 0} where
  index_from-laid :
      (left k : ℕ) (before : List (Option (Item A))) (v : A) (vs : List A)
      → length before ≡ k
      → left < length (v ∷ vs)
      → (index_from left k (before ++ laid k (v ∷ vs)) >>= λ w. ok (some w))
        ≡ ok (get_elem? (v ∷ vs) left)
  unfolding index_from
  index_from-laid zero k before v vs at fits = rw (item_at-laid k before v vs at)
  index_from-laid (suc left) k before v [] at fits = ground arith
  index_from-laid (suc left) k before v (w ∷ vs) at fits =
      let rest : (index_from left (suc k) (before ++ laid k (v ∷ w ∷ vs)) >>= λ u. ok (some u))
          ≡ ok (get_elem? (w ∷ vs) left) =
        subst
          (λ items.
            (index_from left (suc k) items >>= λ u. ok (some u)) ≡ ok (get_elem? (w ∷ vs) left))
          (append_assoc before (item_of k v (w ∷ vs) ∷ []) (laid (suc k) (w ∷ vs)))
          (index_from-laid left (suc k) (before ++ (item_of k v (w ∷ vs) ∷ [])) w vs
            (omega (arith, at, length-append before (item_of k v (w ∷ vs) ∷ [])))
            (omega (arith, fits))) in
      rw (item_at-laid k before v (w ∷ vs) at, rest)

  get_elem?-behind : (vs : List A) (i : ℕ) → length vs ≤ i → get_elem? vs i ≡ none
  get_elem?-behind [] i h = refl
  get_elem?-behind (v ∷ vs) zero h = ground arith
  get_elem?-behind (v ∷ vs) (suc i) h = get_elem?-behind vs i (omega (arith, h))

  index-chain_of :
      (v : A) (vs : List A) (index : ℕ)
      → list_index (chain_of v vs) index ≡ ok (get_elem? (v ∷ vs) index)
  unfolding index_by
  index-chain_of v vs index = elim (Bool-cases (leb (suc (length vs)) index)) [
    | inl e ↦ rw (e, get_elem?-behind (v ∷ vs) index (ground (arith, e)))
    | inr e ↦ rw e (index_from-laid index 0 [] v vs refl (ground (arith, e)))
  ]

  -- What patty_list_append has put into a new list, patty_list_index finds under its number, and
  -- nothing (NULL) at an index from the length on.
  pub index-append_all :
      (vs : List A) (index : ℕ)
      → (append_all list_new vs >>= λ list. list_index list index) ≡ ok (get_elem? vs index)
  unfolding append_all append_by index_by
  index-append_all [] index = ground arith
  index-append_all (v ∷ vs) index =
      ap (λ r. r >>= λ list. list_index list index) (append_all-chain_of v [] vs)
      ∙ index-chain_of v vs index
