-- ===== src/Lists.antt =====
-- The linked list of list.c: items with links, at addresses that malloc gives out.
pub mod Appended
pub mod Indexed
pub mod Unlinked
mod Tests
use patty.Prelude.{
  List, Option, [], if◌then◌else◌, leb, length, none, set, some, suc, zero, ℕ, ◌++◌, ◌+◌, ◌-◌, ◌∷◌,
}
use patty.Result.{Result, fault, ok, ◌>>=◌}

-- What stands in the field `prev`: nothing yet, since malloc sets no field, NULL, or an address.
pub data Link : Type 0 where
  unset null : Link
  to : ℕ → Link

-- `patty_list_item`
pub record Item (A : Type 0) : Type 0 where
  pub prev : Link
  pub next : Option ℕ
  pub value : A

-- `patty_list`, with the items: the one with address k stands k-th, and is `none` once it is freed.
pub record Chain (A : Type 0) : Type 0 where
  pub items : List (Option (Item A))
  pub list_length : ℕ
  pub first : Option ℕ
  pub last : Option ℕ

-- patty_list_new
abbrev pub list_new : {A : Type 0} → Chain A
list_new = record { items = []; list_length = 0; first = none; last = none }

-- `*item`, an access to memory, which is undefined where no item is or it has been freed.
unfoldable pub item_at : {A : Type 0} → List (Option (Item A)) → ℕ → Result (Item A)
item_at [] k = fault
item_at (none ∷ rest) zero = fault
item_at (some item ∷ rest) zero = ok item
item_at (item ∷ rest) (suc k) = item_at rest k

-- The item that patty_list_append allocates.
abbrev pub item_new : {A : Type 0} → A → Item A
item_new v = record { prev = unset; next = none; value = v }

-- `list->last->next = new` at the item `k`.
unfoldable pub append_behind : {A : Type 0} → Chain A → Option ℕ → A → Result (Chain A)
unfolding item_at
append_behind list none v = fault
append_behind list (some k) v = item_at list.items k >>= λ item. ok (record {
  items =
      set list.items k (some (record item { next = some (length list.items) }))
      ++ (some (item_new v) ∷ []);
  list_length = list.list_length + 1;
  first = list.first;
  last = some (length list.items);
})

-- patty_list_append, with memory for the item.
unfoldable pub append_by : {A : Type 0} → Option ℕ → Chain A → A → Result (Chain A)
append_by none list v = ok (record {
  items = list.items ++ (some (item_new v) ∷ []);
  list_length = list.list_length + 1;
  first = some (length list.items);
  last = some (length list.items);
})
append_by (some k) list v = append_behind list list.last v

abbrev pub list_append : {A : Type 0} → Chain A → A → Result (Chain A)
list_append list v = append_by list.first list v

-- The removal of the last item, by what its `prev` is; `k` is the item's address.
unfoldable pub pop_by : {A : Type 0} → Link → Chain A → ℕ → A → Result (Option A × Chain A)
unfolding item_at
pop_by unset list k v = fault
pop_by null list k v = ok (
  some v,
  record {
    items = set list.items k none;
    list_length = list.list_length - 1;
    first = none;
    last = none;
  },
)
pop_by (to p) list k v = item_at list.items p >>= λ before. ok (
  some v,
  record {
    items = set (set list.items p (some (record before { next = none }))) k none;
    list_length = list.list_length - 1;
    first = list.first;
    last = some p;
  },
)

-- patty_list_pop
unfoldable pub pop_at : {A : Type 0} → Option ℕ → Chain A → Result (Option A × Chain A)
unfolding item_at
pop_at none list = ok (none, list)
pop_at (some k) list = item_at list.items k >>= λ item. pop_by item.prev list k item.value

abbrev pub list_pop : {A : Type 0} → Chain A → Result (Option A × Chain A)
list_pop list = pop_at list.last list

-- The removal of the first item, by what its `next` is.
unfoldable pub shift_by : {A : Type 0} → Option ℕ → Chain A → ℕ → A → Result (Option A × Chain A)
unfolding item_at
shift_by none list k v = ok (
  some v,
  record {
    items = set list.items k none;
    list_length = list.list_length - 1;
    first = none;
    last = none;
  },
)
shift_by (some n) list k v = item_at list.items n >>= λ behind. ok (
  some v,
  record {
    items = set (set list.items n (some (record behind { prev = null }))) k none;
    list_length = list.list_length - 1;
    first = some n;
    last = list.last;
  },
)

-- patty_list_shift
unfoldable pub shift_at : {A : Type 0} → Option ℕ → Chain A → Result (Option A × Chain A)
unfolding item_at
shift_at none list = ok (none, list)
shift_at (some k) list = item_at list.items k >>= λ item. shift_by item.next list k item.value

abbrev pub list_shift : {A : Type 0} → Chain A → Result (Option A × Chain A)
list_shift list = shift_at list.first list

-- patty_list_each: the values that the callback is called with, from an item on, in at most so many
-- rounds. A chain that is longer than that runs in a circle, and counts as `fault`.
unfoldable pub each_from : {A : Type 0} → ℕ → List (Option (Item A)) → Option ℕ → Result (List A)
unfolding item_at
each_from fuel items none = ok []
each_from zero items (some k) = fault
each_from (suc fuel) items (some k) = item_at items k >>= λ item.
    each_from fuel items item.next >>= λ values. ok (item.value ∷ values)

abbrev pub list_each : {A : Type 0} → Chain A → Result (List A)
list_each list = each_from (length list.items) list.items list.first

-- The removal of the item `k` by its links. The item keeps its own, the length stays, the item behind
-- keeps its `prev`, and an item that is alone stays in the list.
unfoldable pub splice_by :
    {A : Type 0} → Link → Option ℕ → Chain A → A → Result (Option A × Chain A)
unfolding item_at
splice_by unset next list v = fault
splice_by null none list v = ok (some v, list)
splice_by null (some n) list v = item_at list.items n >>= λ behind. ok (
  some v,
  record list { items = set list.items n (some (record behind { prev = null })); first = some n },
)
splice_by (to p) none list v = item_at list.items p >>= λ before. ok (
  some v,
  record list { items = set list.items p (some (record before { next = none })); last = some p },
)
splice_by (to p) (some n) list v = item_at list.items p >>= λ before.
    ok (some v, record list { items = set list.items p (some (record before { next = some n })) })

-- The loop of patty_list_splice; `left` is index - i.
unfoldable pub splice_from : {A : Type 0} → ℕ → Option ℕ → Chain A → Result (Option A × Chain A)
unfolding item_at splice_by
splice_from left none list = ok (none, list)
splice_from zero (some k) list =
    item_at list.items k >>= λ item. splice_by item.prev item.next list item.value
splice_from (suc left) (some k) list =
    item_at list.items k >>= λ item. splice_from left item.next list

-- patty_list_splice at an index that is not negative, as its callers have it.
abbrev pub list_splice : {A : Type 0} → Chain A → ℕ → Result (Option A × Chain A)
list_splice list index = splice_from index list.first list

-- The loop of patty_list_index, from the item `k` on.
unfoldable pub index_from : {A : Type 0} → ℕ → ℕ → List (Option (Item A)) → Result A
unfolding item_at
index_from zero k items = item_at items k >>= λ item. ok item.value
index_from (suc left) k items = item_at items k >>= λ item. elim item.next [
  | none ↦ ok item.value
  | some n ↦ index_from left n items
]

-- patty_list_index at an index that is not negative.
unfoldable pub index_by : {A : Type 0} → Option ℕ → Chain A → ℕ → Result (Option A)
unfolding index_from
index_by none list index = if leb list.list_length index then ok none else fault
index_by (some k) list index =
    if leb list.list_length index
    then ok none
    else index_from index k list.items >>= λ v. ok (some v)

abbrev pub list_index : {A : Type 0} → Chain A → ℕ → Result (Option A)
list_index list index = index_by list.first list index

-- The loop of patty_list_set, which writes to the item that stands `left` further on.
unfoldable pub set_from : {A : Type 0} → ℕ → Option ℕ → Chain A → A → Result (Option A × Chain A)
unfolding item_at
set_from left none list v = ok (none, list)
set_from zero (some k) list v = item_at list.items k >>= λ item.
    ok (some v, record list { items = set list.items k (some (record item { value = v })) })
set_from (suc left) (some k) list v =
    item_at list.items k >>= λ item. set_from left item.next list v

-- patty_list_set at an index that is not negative.
abbrev pub list_set : {A : Type 0} → Chain A → ℕ → A → Result (Option A × Chain A)
list_set list index v = set_from index list.first list v
