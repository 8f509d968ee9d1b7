-- ===== src/Route/Lookup.antt =====
-- Which route patty_ax25_route_table_find of route.c finds.
use patty.Prelude.{
  Bool, Bool-cases, arith, false, if◌then◌else◌, inl, inr, not, refl, subst, true, ℕ, ◌==◌, ◌≡◌,
  ◌≢◌,
}
use patty.Result.{eexist, err, ok, ok-injective, stale}
use patty.Frame.{Addr}
use patty.Dict.{Bucket, dict_get, dict_set}
use patty.Dict.Lookup.{dict_get-dict_set}
use patty.Route.{route_key, table_add, table_default, table_find}

-- A route that patty_ax25_route_table_add takes is the one found for its destination.
pub table_find-table_add :
    (table : Bucket) (dest : Addr) (route : ℕ) (after : Bucket)
    → table_add table dest route ≡ ok after
    → route ≢ 0
    → table_find after dest ≡ route
unfolding table_add table_find
table_find-table_add table dest route after e ne = by_found (table_find table dest == 0) e
  where
    by_set :
        (refused : Bool)
        → ((dict_set table (route_key dest) route).1 == 0) ≡ refused
        → (if refused then err stale else ok (dict_set table (route_key dest) route).0) ≡ ok after
        → dict_get after (route_key dest) ≡ route
    by_set true r e = cc
    by_set false r e =
        let set_ok = dict_get-dict_set table (route_key dest) route (λ z. ground (arith, r, z)) in
        subst (λ t. dict_get t (route_key dest) ≡ route) (ok-injective e) set_ok.1

    by_found :
        (free_now : Bool)
        → (if not free_now
            then err eexist
            else (if (dict_set table (route_key dest) route).1 == 0
                then err stale
                else ok (dict_set table (route_key dest) route).0))
          ≡ ok after
        → table_find after dest ≡ route
    by_found false e = cc
    by_found true e =
        let got = by_set ((dict_set table (route_key dest) route).1 == 0) refl e in
        let there : (route == 0) ≡ false = ground (arith, ne) in rw (got, there) refl

-- Once a default route is set, no other route is taken: patty_ax25_route_table_add looks for the
-- destination with a search that falls back on the default route, and fails with EEXIST.
pub table_add-eexist :
    (table : Bucket) (dest : Addr) (route : ℕ)
    → table_default table ≢ 0
    → table_add table dest route ≡ err eexist
unfolding table_add table_find
table_add-eexist table dest route ne = elim (Bool-cases (dict_get table (route_key dest) == 0)) [
  | inl e ↦
      let there : (table_default table == 0) ≡ false = ground (arith, ne) in rw (e, there) refl
  | inr e ↦ rw (e, e) refl
]
