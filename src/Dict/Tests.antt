-- ===== src/Dict/Tests.antt =====
-- The theorems on dictionaries at concrete inputs.
use patty.Prelude.{arith, none, refl, some, suc, zero, ℕ, ◌≡◌, ◌≤◌}
use patty.Dict.{Bucket, dict_delete, dict_get, dict_set, empty, index, set_at, slot_find}
use patty.Dict.Behind.{level_at, level_find, slot_find-dict_delete_behind}
use patty.Dict.Lookup.{dict_get-dict_set, slot_find-dict_set_ne}

-- The keys 0x12 and 0x22 share their lowest nibble.
abbrev collided : Bucket
collided = (dict_set (dict_set empty 0x12 7).0 0x22 8).0

set_returns : (dict_set collided 0x32 9).1 ≡ 9
unfolding dict_set set_at index
set_returns = refl

dict_get-dict_set_example :
    (slot_find (dict_set collided 0x32 9).0 0x32 ≡ some 9)
    × (dict_get (dict_set collided 0x32 9).0 0x32 ≡ 9)
dict_get-dict_set_example = dict_get-dict_set collided 0x32 9 (λ z. omega (arith, set_returns, z))

slot_find-dict_set_ne_example :
    slot_find (dict_set collided 0x32 9).0 0x12 ≡ slot_find collided 0x12
slot_find-dict_set_ne_example = slot_find-dict_set_ne collided 0x32 9 0x12 (omega arith)

-- 0x112 lies behind 0x12, which lies behind 0x32.
abbrev nested : Bucket
nested = (dict_set (dict_set (dict_set empty 0x32 7).0 0x12 8).0 0x112 9).0

nested_level_key : level_find nested 0x12 ≡ some 1
unfolding level_find level_at dict_set set_at index
nested_level_key = refl

nested_level_other : level_find nested 0x112 ≡ some 2
unfolding level_find level_at dict_set set_at index
nested_level_other = refl

same_nibbles : (l : ℕ) → l ≤ 1 → index l 0x12 ≡ index l 0x112
unfolding index
same_nibbles zero h = refl
same_nibbles (suc zero) h = refl
same_nibbles (suc (suc l)) h = absurd (omega (arith, h))

slot_find-dict_delete_behind_example :
    ((v : ℕ) × (slot_find nested 0x112 ≡ some v))
    × (slot_find (dict_delete nested 0x12).0 0x112 ≡ none)
slot_find-dict_delete_behind_example =
    slot_find-dict_delete_behind nested 0x12 0x112 1 2 nested_level_key nested_level_other
      (omega arith) same_nibbles
