-- ===== src/Dict.antt =====
-- The dictionary of dict.c: a tree of buckets of sixteen slots, one nibble of the key per level,
-- the lowest first. An allocation is taken to succeed.
pub mod Lookup
pub mod Deleted
pub mod Behind
mod Tests
use patty.Prelude.{
  Bool, Option, bit_and, false, if◌then◌else◌, none, some, suc, true, zero, ℕ, ◌*◌, ◌/◌, ◌==◌, ◌^◌,
}

-- `patty_dict_slot`. A slot that is not set is zero throughout, since buckets are zeroed when they
-- are made and slots when they are deleted. A slot that is set has a key, a value, and either no
-- next bucket or one, here as a function of the index. Values are pointers, with 0 for NULL.
pub data Slot : Type 0 where
  free : Slot
  leaf : (key value : ℕ) → Slot
  node : (key value : ℕ) → (ℕ → Slot) → Slot

-- `patty_dict_bucket`, by the index.
abbrev pub Bucket : Type 0
Bucket = ℕ → Slot

abbrev pub empty : Bucket
empty i = free

-- One slot of a bucket is written.
abbrev pub update : Bucket → ℕ → Slot → Bucket
update bucket i slot j = if i == j then slot else bucket j

-- `(key & (0x0f << (4 * level))) >> (4 * level)`
unfoldable pub index : ℕ → ℕ → ℕ
index level key = bit_and key (0x0f * 2 ^ (4 * level)) / 2 ^ (4 * level)

-- The rounds of patty_dict_slot_find from a slot on, with `rounds` more rounds to go: the value of
-- the slot that it finds.
unfoldable pub find_at : ℕ → ℕ → Slot → ℕ → Option ℕ
unfolding index
find_at rounds level free key = none
find_at rounds level (leaf k v) key = if k == key then some v else none
find_at zero level (node k v next) key = if k == key then some v else none
find_at (suc rounds) level (node k v next) key =
    let rest = find_at rounds (suc level) (next (index (suc level) key)) key in
    if k == key then some v else rest

-- patty_dict_slot_find
unfoldable pub slot_find : Bucket → ℕ → Option ℕ
unfolding find_at
slot_find dict key = find_at 6 0 (dict (index 0 key)) key

unfoldable pub or_null : Option ℕ → ℕ
or_null none = 0
or_null (some v) = v

-- patty_dict_get
unfoldable pub dict_get : Bucket → ℕ → ℕ
unfolding slot_find or_null
dict_get dict key = or_null (slot_find dict key)

-- The rounds of patty_dict_set from a slot on: the slot as it is left, and the return value. In the
-- last round a bucket is made that is not used.
unfoldable pub set_at : ℕ → ℕ → Slot → ℕ → ℕ → Slot × ℕ
unfolding index
set_at rounds level free key value = (leaf key value, value)
set_at zero level (leaf k v) key value =
    if k == key then (leaf k value, value) else (node k v empty, 0)
set_at (suc rounds) level (leaf k v) key value =
    if k == key
    then (leaf k value, value)
    else (node k v (update empty (index (suc level) key) (leaf key value)), value)
set_at zero level (node k v next) key value =
    if k == key then (node k value next, value) else (node k v next, 0)
set_at (suc rounds) level (node k v next) key value =
    let i = index (suc level) key in
    let rest = set_at rounds (suc level) (next i) key value in
    if k == key then (node k value next, value) else (node k v (update next i rest.0), rest.1)

-- patty_dict_set
unfoldable pub dict_set : Bucket → ℕ → ℕ → Bucket × ℕ
unfolding set_at
dict_set dict key value =
    let i = index 0 key in
    let done = set_at 6 0 (dict i) key value in (update dict i done.0, done.1)

-- The slot that holds the key is zeroed, with the next bucket that it points to.
unfoldable pub delete_at : ℕ → ℕ → Slot → ℕ → Slot
unfolding index
delete_at rounds level free key = free
delete_at rounds level (leaf k v) key = if k == key then free else leaf k v
delete_at zero level (node k v next) key = if k == key then free else node k v next
delete_at (suc rounds) level (node k v next) key =
    let i = index (suc level) key in
    let rest = delete_at rounds (suc level) (next i) key in
    if k == key then free else node k v (update next i rest)

-- patty_dict_delete: the dictionary, and whether it had the key.
unfoldable pub dict_delete : Bucket → ℕ → Bucket × Bool
unfolding slot_find delete_at
dict_delete dict key =
    let i = index 0 key in
    (
      update dict i (delete_at 6 0 (dict i) key),
      elim (slot_find dict key) [ none ↦ false | some v ↦ true ],
    )
