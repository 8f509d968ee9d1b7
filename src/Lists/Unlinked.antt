-- ===== src/Lists/Unlinked.antt =====
-- What patty_list_pop and patty_list_splice do with items that patty_list_append has made.
use patty.Prelude.{
  List, Option, [], ap, append_assoc, arith, length, length-append, length-set, none, refl, some,
  subst, suc, sym, zero, ℕ, ◌++◌, ◌<◌, ◌∙◌, ◌∷◌, ◌≡◌,
}
use patty.Result.{fault, map-eq-ok, ok, ok-injective, ◌>>=◌}
use patty.Lists.{
  Chain, Item, append_behind, append_by, item_at, item_new, list_append, list_new, list_pop,
  list_splice, pop_at, pop_by, splice_by, splice_from, unset,
}
use patty.Lists.Appended.{
  append_all, append_all-chain_of, chain_of, item_at-behind, item_at-laid, item_of, laid, start_of,
}

module _ {A : Type 0} where
  -- What an append leaves: a last item whose prev is unset.
  popped_new :
      (items : List (Option (Item A))) (n : ℕ) (first : Option ℕ) (v : A) (k : ℕ)
      → length items ≡ k
      → list_pop (record {
        items = items ++ (some (item_new v) ∷ []);
        list_length = n;
        first = first;
        last = some k;
      })
        ≡ fault
  unfolding pop_at pop_by
  popped_new items n first v k at =
      let last_is : item_at (items ++ (some (item_new v) ∷ [])) k ≡ ok (item_new v) =
        subst (λ i. item_at (items ++ (some (item_new v) ∷ [])) i ≡ ok (item_new v)) at
          (item_at-behind items (item_new v) []) in
      rw last_is

  pop-append_behind :
      (list longer : Chain A) (last : Option ℕ) (v : A)
      → append_behind list last v ≡ ok longer
      → list_pop longer ≡ fault
  unfolding append_behind
  pop-append_behind list longer none v h = cc
  pop-append_behind list longer (some k) v h =
      let (item, _, e) = map-eq-ok (item_at list.items k) _ h in
      subst (λ l. list_pop l ≡ fault) e (popped_new _ _ _ v _ (length-set list.items k _))

  pop-append_by :
      (first : Option ℕ) (list longer : Chain A) (v : A)
      → append_by first list v ≡ ok longer
      → list_pop longer ≡ fault
  unfolding append_by
  pop-append_by none list longer v h =
      subst (λ l. list_pop l ≡ fault) (ok-injective h) (popped_new list.items _ _ v _ refl)
  pop-append_by (some k) list longer v h = pop-append_behind list longer list.last v h

  -- patty_list_append leaves the field prev of the item as malloc gave it out, and patty_list_pop
  -- goes by that field: it cannot take off an item that was appended last.
  pub pop-append :
      (list longer : Chain A) (v : A) → list_append list v ≡ ok longer → list_pop longer ≡ fault
  pop-append list longer v h = pop-append_by list.first list longer v h

  splice_from-laid :
      (left k : ℕ) (before : List (Option (Item A))) (vs : List A) (list : Chain A)
      → list.items ≡ before ++ laid k vs
      → length before ≡ k
      → left < length vs
      → splice_from left (start_of k vs) list ≡ fault
  unfolding splice_from splice_by
  splice_from-laid left k before [] list h at fits = ground arith
  splice_from-laid zero k before (v ∷ vs) list h at fits = rw (h, item_at-laid k before v vs at)
  splice_from-laid (suc left) k before (v ∷ vs) list h at fits =
      let rest : splice_from left (start_of (suc k) vs) list ≡ fault =
        splice_from-laid left (suc k) (before ++ (item_of k v vs ∷ [])) vs list
          (h ∙ sym (append_assoc before (item_of k v vs ∷ []) (laid (suc k) vs)))
          (omega (arith, at, length-append before (item_of k v vs ∷ []))) (omega (arith, fits)) in
      let item_is : item_at list.items k
          ≡ ok (record { prev = unset; next = start_of (suc k) vs; value = v }) =
        ap (λ xs. item_at xs k) h ∙ item_at-laid k before v vs at in
      rw (item_is, rest)

  -- patty_list_append leaves the field prev of the item as malloc gave it out, and patty_list_splice
  -- goes by that field: whatever is appended to a new list, no item of it can be taken out, whichever
  -- index below the length is given.
  pub splice-append_all :
      (vs : List A) (index : ℕ)
      → index < length vs
      → (append_all list_new vs >>= λ list. list_splice list index) ≡ fault
  unfolding append_all append_by
  splice-append_all [] index fits = ground arith
  splice-append_all (v ∷ vs) index fits =
      ap (λ r. r >>= λ list. list_splice list index) (append_all-chain_of v [] vs)
      ∙ splice_from-laid index 0 [] (v ∷ vs) (chain_of v vs) refl refl fits
