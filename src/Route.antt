-- ===== src/Route.antt =====
-- Routes: route.c. A table is a dictionary of pointers to routes, with 0 for NULL.
pub mod Lookup
mod Tests
use patty.Prelude.{
  Bool, List, Option, [], bit_and, bit_or, if◌then◌else◌, leb, length, ltb, none, not, replicate,
  some, take, ℕ, ◌==◌, ◌∷◌,
}
use patty.Result.{Result, eexist, eoverflow, err, fault, ok, stale}
use patty.Frame.{Addr, max_hops}
use patty.Hash.{addr_hash, hash_end, hash_init}
use patty.Dict.{Bucket, dict_delete, dict_get, dict_set}

-- `patty_ax25_route`; `repeaters` has the entries that have been written.
pub record Route : Type 0 where
  pub iface : ℕ
  pub dest : Addr
  pub repeaters : List Addr
  pub hops : ℕ

-- patty_ax25_addr_copy into an address, without flags.
abbrev copied : Addr → Addr
copied addr = record addr { ssid = bit_or 0x60 (bit_and addr.ssid 0x1e) }

-- The loop of patty_ax25_route_new: each repeater is copied to the first entry.
copy_repeaters : List Addr → List Addr → List Addr
copy_repeaters entries [] = entries
copy_repeaters entries (addr ∷ rest) = copy_repeaters (copied addr ∷ []) rest

abbrev pub empty_addr : Addr
empty_addr = record { callsign = replicate 6 0; ssid = 0 }

dest_of : Option Addr → Addr
dest_of none = empty_addr
dest_of (some addr) = copied addr

-- patty_ax25_route_new, with memory at hand. The field `hops` stays 0.
pub route_new : ℕ → Option Addr → List Addr → ℕ → Result Route
unfolding copy_repeaters dest_of
route_new iface dest repeaters hops =
    if leb max_hops hops
    then err eoverflow
    else if ltb (length repeaters) hops
    then fault
    else ok (record {
      iface = iface;
      dest = dest_of dest;
      repeaters = copy_repeaters [] (take hops repeaters);
      hops = 0;
    })

-- patty_ax25_route_new_default
pub route_new_default : ℕ → Result Route
unfolding route_new
route_new_default iface = route_new iface none [] 0

-- The key of an address in a table.
unfoldable pub route_key : Addr → ℕ
route_key addr = hash_end (addr_hash hash_init addr)

-- patty_ax25_route_table_default
unfoldable pub table_default : Bucket → ℕ
unfolding route_key
table_default table = dict_get table (route_key empty_addr)

-- patty_ax25_route_table_find
unfoldable pub table_find : Bucket → Addr → ℕ
unfolding table_default route_key
table_find table dest =
    let route = dict_get table (route_key dest) in
    if not (route == 0) then route else table_default table

-- patty_ax25_route_table_add of a route to `dest` at the pointer `route`.
pub table_add : Bucket → Addr → ℕ → Result Bucket
unfolding table_find route_key
table_add table dest route =
    if not (table_find table dest == 0)
    then err eexist
    else (let after = dict_set table (route_key dest) route in
        if after.1 == 0 then err stale else ok after.0)

-- patty_ax25_route_table_delete
pub table_delete : Bucket → Addr → Bucket × Bool
unfolding route_key
table_delete table dest = dict_delete table (route_key dest)
