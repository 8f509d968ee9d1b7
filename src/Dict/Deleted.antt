-- ===== src/Dict/Deleted.antt =====
-- What a dictionary still holds after a delete.
use patty.Prelude.{
  ==_refl, Bool, Bool-cases, Option, ap, arith, false, if◌then◌else◌, inl, inr, none, refl, some,
  subst, suc, true, zero, ℕ, ◌==◌, ◌∙◌, ◌≡◌, ◌⊎◌,
}
use patty.Dict.{
  Bucket, Slot, delete_at, dict_delete, dict_get, find_at, free, index, leaf, node, or_null,
  slot_find,
}

find_at-delete_at_self :
    (rounds level : ℕ) (slot : Slot) (key : ℕ)
    → find_at rounds level (delete_at rounds level slot key) key ≡ none
unfolding find_at delete_at
find_at-delete_at_self rounds level free key = refl
find_at-delete_at_self rounds level (leaf k v) key = elim (Bool-cases (k == key)) [
  | inl e ↦ rw e refl
  | inr e ↦ rw e (rw e refl)
]
find_at-delete_at_self zero level (node k v next) key = elim (Bool-cases (k == key)) [
  | inl e ↦ rw e refl
  | inr e ↦ rw e (rw e refl)
]
find_at-delete_at_self (suc rounds) level (node k v next) key =
    let i = index (suc level) key in
    elim (Bool-cases (k == key)) [
      | inl e ↦ rw e refl
      | inr e ↦ rw e (rw (e, ==_refl i) (find_at-delete_at_self rounds (suc level) (next i) key))
    ]

-- After a delete nothing is found under the key.
pub dict_get-dict_delete_self :
    (dict : Bucket) (key : ℕ) → dict_get (dict_delete dict key).0 key ≡ 0
unfolding dict_get or_null slot_find dict_delete
dict_get-dict_delete_self dict key =
    let i = index 0 key in rw (==_refl i) (rw (find_at-delete_at_self 6 0 (dict i) key) refl)

data Loses (after before : Option ℕ) : Type 0 where
  lost : after ≡ none → Loses after before
  kept : after ≡ before → Loses after before

Loses-if :
    (b : Bool) (v : ℕ) {after before : Option ℕ}
    → Loses after before
    → Loses (if b then some v else after) (if b then some v else before)
Loses-if true v h = kept refl
Loses-if false v h = h

find_at-delete_at :
    (rounds level : ℕ) (slot : Slot) (key other : ℕ)
    → Loses
        (find_at rounds level (delete_at rounds level slot key) other)
        (find_at rounds level slot other)
unfolding find_at delete_at
find_at-delete_at rounds level free key other = lost refl
find_at-delete_at rounds level (leaf k v) key other = elim (Bool-cases (k == key)) [
  | inl e ↦ rw e (lost refl)
  | inr e ↦ rw e (kept refl)
]
find_at-delete_at zero level (node k v next) key other = elim (Bool-cases (k == key)) [
  | inl e ↦ rw e (lost refl)
  | inr e ↦ rw e (kept refl)
]
find_at-delete_at (suc rounds) level (node k v next) key other =
    let i = index (suc level) key in
    let j = index (suc level) other in
    let rest = find_at-delete_at rounds (suc level) (next i) key other in
    elim (Bool-cases (k == key)) [
      | inl e ↦ rw e (lost refl)
      | inr e ↦ rw e (
          Loses-if (k == other) v (elim (Bool-cases (i == j)) [
            | inl same ↦
                let at : i ≡ j = ground (arith, same) in
                rw same (
                  subst
                    (λ n.
                      Loses
                        (find_at rounds (suc level) (delete_at rounds (suc level) (next i) key)
                          other)
                        (find_at rounds (suc level) (next n) other))
                    at rest)
            | inr away ↦ rw away (kept refl)
          ]))
    ]

-- A delete changes no value but to take it away: under any key there is nothing afterwards, or what
-- was there before.
pub dict_get-dict_delete :
    (dict : Bucket) (key other : ℕ)
    → (dict_get (dict_delete dict key).0 other ≡ 0)
      ⊎ (dict_get (dict_delete dict key).0 other ≡ dict_get dict other)
unfolding dict_get or_null slot_find dict_delete
dict_get-dict_delete dict key other =
    let i = index 0 key in
    let j = index 0 other in
    elim (Bool-cases (i == j)) [
      | inl same ↦
          let at : i ≡ j = ground (arith, same) in
          elim (find_at-delete_at 6 0 (dict i) key other) [
            | lost e ↦ rw same (inl (rw e refl))
            | kept e ↦ rw same (inr (ap or_null (e ∙ ap (λ n. find_at 6 0 (dict n) other) at)))
          ]
      | inr away ↦ rw away (inr refl)
    ]
