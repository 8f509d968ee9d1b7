-- ===== src/Dict/Lookup.antt =====
-- What patty_dict_slot_find of dict.c finds after a set and after a delete.
use patty.Prelude.{
  ==_ne, ==_refl, Bool, Bool-cases, Option, ap, arith, false, if◌then◌else◌, inl, inr, none, refl,
  some, suc, true, zero, ℕ, ◌==◌, ◌∙◌, ◌≡◌, ◌≢◌,
}
use patty.Dict.{
  Bucket, Slot, dict_get, dict_set, find_at, free, index, leaf, node, or_null, set_at, slot_find,
}

-- What a slot holds for the key after set_at has succeeded.
find_at-set_at :
    (rounds level : ℕ) (slot : Slot) (key value : ℕ)
    → (set_at rounds level slot key value).1 ≢ 0
    → find_at rounds level (set_at rounds level slot key value).0 key ≡ some value
unfolding find_at set_at
find_at-set_at rounds level free key value h = rw (==_refl key) refl
find_at-set_at zero level (leaf k v) key value h = elim (Bool-cases (k == key)) [
  | inl e ↦ rw (e, e) refl
  | inr e ↦ absurd (h (rw e refl))
]
find_at-set_at (suc rounds) level (leaf k v) key value h = elim (Bool-cases (k == key)) [
  | inl e ↦ rw (e, e) refl
  | inr e ↦ rw (e, e, ==_refl (index (suc level) key), ==_refl key) refl
]
find_at-set_at zero level (node k v next) key value h = elim (Bool-cases (k == key)) [
  | inl e ↦ rw (e, e) refl
  | inr e ↦ absurd (h (rw e refl))
]
find_at-set_at (suc rounds) level (node k v next) key value h = elim (Bool-cases (k == key)) [
  | inl e ↦ rw (e, e) refl
  | inr e ↦
      let i = index (suc level) key in
      let rest = find_at-set_at rounds (suc level) (next i) key value (λ z. h (rw e z)) in
      rw (e, e, ==_refl i) rest
]

-- A value that patty_dict_set returned, other than NULL, is found under its key, and
-- patty_dict_get returns it.
pub dict_get-dict_set :
    (dict : Bucket) (key value : ℕ)
    → (dict_set dict key value).1 ≢ 0
    → (slot_find (dict_set dict key value).0 key ≡ some value)
      × (dict_get (dict_set dict key value).0 key ≡ value)
unfolding dict_get or_null slot_find dict_set
dict_get-dict_set dict key value h =
    let found : slot_find (dict_set dict key value).0 key ≡ some value =
      rw (==_refl (index 0 key)) (find_at-set_at 6 0 (dict (index 0 key)) key value h) in
    (found, ap or_null found)

-- Whatever slot is looked at, writing one key leaves what it holds for another.
find_at-set_at_ne :
    (rounds level : ℕ) (slot : Slot) (key value other : ℕ)
    → key ≢ other
    → find_at rounds level (set_at rounds level slot key value).0 other
      ≡ find_at rounds level slot other
unfolding find_at set_at
find_at-set_at_ne rounds level free key value other ne = rw (==_ne key other ne) refl
find_at-set_at_ne zero level (leaf k v) key value other ne = elim (Bool-cases (k == key)) [
  | inl e ↦ let gone : (k == other) ≡ false = ground (arith, e, ne) in rw e (rw gone refl)
  | inr e ↦ rw e refl
]
find_at-set_at_ne (suc rounds) level (leaf k v) key value other ne = elim (Bool-cases (k == key)) [
  | inl e ↦ let gone : (k == other) ≡ false = ground (arith, e, ne) in rw e (rw gone refl)
  | inr e ↦ rw e (
      ap (λ (o : Option ℕ). if k == other then some v else o)
        (absent (index (suc level) key == index (suc level) other)))
]
  where
    absent :
        (b : Bool) → find_at rounds (suc level) (if b then leaf key value else free) other ≡ none
    absent true = rw (==_ne key other ne) refl
    absent false = refl
find_at-set_at_ne zero level (node k v next) key value other ne = elim (Bool-cases (k == key)) [
  | inl e ↦ let gone : (k == other) ≡ false = ground (arith, e, ne) in rw e (rw gone refl)
  | inr e ↦ rw e refl
]
find_at-set_at_ne (suc rounds) level (node k v next) key value other ne =
    let i = index (suc level) key in
    let j = index (suc level) other in
    let rest = find_at-set_at_ne rounds (suc level) (next i) key value other ne in
    elim (Bool-cases (k == key)) [
      | inl e ↦ let gone : (k == other) ≡ false = ground (arith, e, ne) in rw e (rw gone refl)
      | inr e ↦ rw e (
          ap (λ (o : Option ℕ). if k == other then some v else o)
            (elim (Bool-cases (i == j)) [
              | inl same ↦
                  let at : i ≡ j = ground (arith, same) in
                  rw same (rest ∙ ap (λ (n : ℕ). find_at rounds (suc level) (next n) other) at)
              | inr away ↦ rw away refl
            ]))
    ]

-- Setting a key, whether or not it succeeds, does not change what is found under any other key.
pub slot_find-dict_set_ne :
    (dict : Bucket) (key value other : ℕ)
    → key ≢ other
    → slot_find (dict_set dict key value).0 other ≡ slot_find dict other
unfolding slot_find dict_set
slot_find-dict_set_ne dict key value other ne =
    let i = index 0 key in
    let j = index 0 other in
    let rest = find_at-set_at_ne 6 0 (dict i) key value other ne in
    elim (Bool-cases (i == j)) [
      | inl same ↦
          let at : i ≡ j = ground (arith, same) in
          rw same (rest ∙ ap (λ (n : ℕ). find_at 6 0 (dict n) other) at)
      | inr away ↦ rw away refl
    ]
