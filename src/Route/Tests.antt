-- ===== src/Route/Tests.antt =====
-- The theorems on routes and hashes at concrete inputs.
use patty.Prelude.{[], arith, refl, ℕ, ◌*◌, ◌∷◌, ◌≡◌}
use patty.Result.{eexist, err, ok}
use patty.Frame.{Addr}
use patty.Hash.{addr_hash, hash_byte, hash_callsign, hash_end, hash_init}
use patty.Dict.{Bucket, dict_get, dict_set, empty, find_at, index, or_null, set_at, slot_find}
use patty.Route.{empty_addr, route_key, table_add, table_default, table_find}
use patty.Route.Lookup.{table_add-eexist, table_find-table_add}

abbrev station : ℕ → Addr
station ssid = record {
  callsign = (2 * 0x4e) ∷ (2 * 0x30) ∷ (2 * 0x43) ∷ (2 * 0x41) ∷ (2 * 0x4c) ∷ (2 * 0x4c) ∷ [];
  ssid = ssid;
}

-- The hash of N0CALL-2, whose letters enter it with the highest bit set.
station_hash : hash_end (addr_hash hash_init (station 4)) ≡ 0x75886ab6
unfolding hash_init hash_byte hash_end addr_hash hash_callsign
station_hash = refl

abbrev one_route : Bucket
one_route = (dict_set empty (route_key (station 4)) 7).0

takes : table_add empty (station 4) 7 ≡ ok one_route
unfolding table_add table_find table_default route_key dict_get slot_find find_at or_null dict_set
    set_at index hash_init hash_byte hash_end addr_hash hash_callsign
takes = refl

table_find-table_add_example : table_find one_route (station 4) ≡ 7
table_find-table_add_example =
    table_find-table_add empty (station 4) 7 one_route takes (omega arith)

-- A table with a default route.
abbrev with_default : Bucket
with_default = (dict_set empty (route_key empty_addr) 5).0

has_default : table_default with_default ≡ 5
unfolding table_default route_key dict_get slot_find find_at or_null dict_set set_at index hash_init
    hash_byte hash_end addr_hash hash_callsign
has_default = refl

table_add-eexist_example : table_add with_default (station 4) 7 ≡ err eexist
table_add-eexist_example =
    table_add-eexist with_default (station 4) 7 (λ z. omega (arith, has_default, z))
