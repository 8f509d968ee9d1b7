-- ===== src/Dict/Behind.antt =====
-- The keys behind a slot that patty_dict_delete zeroes.
use patty.Prelude.{
  ==_refl, Bool, Bool-cases, Option, arith, false, if◌then◌else◌, inl, inr, none, refl, some,
  some-injective, subst, suc, sym, true, zero, ℕ, ◌<◌, ◌==◌, ◌≡◌, ◌≤◌,
}
use patty.Dict.{Bucket, Slot, delete_at, dict_delete, find_at, free, index, leaf, node, slot_find}

-- The level of the tree at which the rounds of patty_dict_slot_find come upon the key.
unfoldable pub level_at : ℕ → ℕ → Slot → ℕ → Option ℕ
unfolding index
level_at rounds level free key = none
level_at rounds level (leaf k v) key = if k == key then some level else none
level_at zero level (node k v next) key = if k == key then some level else none
level_at (suc rounds) level (node k v next) key =
    let rest = level_at rounds (suc level) (next (index (suc level) key)) key in
    if k == key then some level else rest

-- The level, from 0 to 6, of the slot that a key has in the dictionary.
unfoldable pub level_find : Bucket → ℕ → Option ℕ
unfolding level_at
level_find dict key = level_at 6 0 (dict (index 0 key)) key

level_at-le :
    (rounds level : ℕ) (slot : Slot) (key d : ℕ)
    → level_at rounds level slot key ≡ some d
    → level ≤ d
unfolding level_at
level_at-le rounds level free key d h = cc
level_at-le rounds level (leaf k v) key d h = ground arith
level_at-le zero level (node k v next) key d h = ground arith
level_at-le (suc rounds) level (node k v next) key d h = elim (Bool-cases (k == key)) [
  | inl e ↦ let at : some level ≡ some d = rw e at h in omega (arith, some-injective level d at)
  | inr e ↦
      let deeper =
        level_at-le rounds (suc level) (next (index (suc level) key)) key d (rw e at h) in
      omega (arith, deeper)
]

-- A key with a slot is found.
find_at-level_at :
    (rounds level : ℕ) (slot : Slot) (key d : ℕ)
    → level_at rounds level slot key ≡ some d
    → (v : ℕ) × (find_at rounds level slot key ≡ some v)
unfolding level_at find_at
find_at-level_at rounds level free key d h = cc
find_at-level_at rounds level (leaf k v) key d h = elim (Bool-cases (k == key)) [
  | inl e ↦ (v, rw e refl)
  | inr e ↦ let no : none ≡ some d = rw e at h in cc
]
find_at-level_at zero level (node k v next) key d h = elim (Bool-cases (k == key)) [
  | inl e ↦ (v, rw e refl)
  | inr e ↦ let no : none ≡ some d = rw e at h in cc
]
find_at-level_at (suc rounds) level (node k v next) key d h = elim (Bool-cases (k == key)) [
  | inl e ↦ (v, rw e refl)
  | inr e ↦
      let rest =
        find_at-level_at rounds (suc level) (next (index (suc level) key)) key d (rw e at h) in
      (rest.0, rw e rest.1)
]

-- A key that is found deeper than a slot is not the key of the slot.
level_at_behind :
    (b : Bool) (level d e : ℕ) (rest : Option ℕ)
    → (if b then some level else rest) ≡ some e
    → suc level ≤ d
    → d < e
    → (b ≡ false) × (rest ≡ some e)
level_at_behind true level d e rest h deep lt =
    absurd (omega (arith, some-injective level e h, deep, lt))
level_at_behind false level d e rest h deep lt = (refl, h)

find_at-delete_at_behind :
    (rounds level : ℕ) (slot : Slot) (key other d e : ℕ)
    → level_at rounds level slot key ≡ some d
    → level_at rounds level slot other ≡ some e
    → d < e
    → ((l : ℕ) → suc level ≤ l → l ≤ d → index l key ≡ index l other)
    → find_at rounds level (delete_at rounds level slot key) other ≡ none
unfolding level_at find_at delete_at
find_at-delete_at_behind rounds level free key other d e hd he lt alike = refl
find_at-delete_at_behind rounds level (leaf k v) key other d e hd he lt alike =
    elim (Bool-cases (k == key)) [
      | inl same ↦ rw same refl
      | inr away ↦ let no : none ≡ some d = rw away at hd in cc
    ]
find_at-delete_at_behind zero level (node k v next) key other d e hd he lt alike =
    elim (Bool-cases (k == key)) [
      | inl same ↦ rw same refl
      | inr away ↦ let no : none ≡ some d = rw away at hd in cc
    ]
find_at-delete_at_behind (suc rounds) level (node k v next) key other d e hd he lt alike =
    elim (Bool-cases (k == key)) [
      | inl same ↦ rw same refl
      | inr away ↦
          let hd' : level_at rounds (suc level) (next (index (suc level) key)) key ≡ some d =
            rw away at hd in
          let deep = level_at-le rounds (suc level) (next (index (suc level) key)) key d hd' in
          let i : index (suc level) key ≡ index (suc level) other =
            alike (suc level) (omega arith) deep in
          let at_other =
            level_at_behind (k == other) level d e
              (level_at rounds (suc level) (next (index (suc level) other)) other) he deep lt in
          let he' : level_at rounds (suc level) (next (index (suc level) key)) other ≡ some e =
            subst (λ n. level_at rounds (suc level) (next n) other ≡ some e) (sym i) at_other.1 in
          let rest =
            find_at-delete_at_behind rounds (suc level) (next (index (suc level) key)) key other d e
              hd' he' lt (λ l above below. alike l (omega (arith, above)) below) in
          rw (away, at_other.0, i, ==_refl (index (suc level) other)) (rw i at rest)
    ]

-- Deleting a key loses every key that is found in a bucket behind its slot: in any dictionary, where
-- patty_dict_slot_find comes upon `key` at level `d` and upon `other` at a deeper level, and the two
-- keys have the same nibbles up to level `d`, so that the way to `other` leads through the slot of
-- `key`, `other` is found before and nothing is found under it afterwards.
pub slot_find-dict_delete_behind :
    (dict : Bucket) (key other d e : ℕ)
    → level_find dict key ≡ some d
    → level_find dict other ≡ some e
    → d < e
    → ((l : ℕ) → l ≤ d → index l key ≡ index l other)
    → ((v : ℕ) × (slot_find dict other ≡ some v))
      × (slot_find (dict_delete dict key).0 other ≡ none)
unfolding slot_find level_find dict_delete
slot_find-dict_delete_behind dict key other d e hd he lt alike =
    let i : index 0 key ≡ index 0 other = alike 0 (omega arith) in
    let he' = subst (λ n. level_at 6 0 (dict n) other ≡ some e) (sym i) he in
    let rest =
      find_at-delete_at_behind 6 0 (dict (index 0 key)) key other d e hd he' lt
        (λ l above below. alike l below) in
    (
      find_at-level_at 6 0 (dict (index 0 other)) other e he,
      rw (i, ==_refl (index 0 other)) (rw i at rest),
    )
