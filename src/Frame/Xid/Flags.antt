-- ===== src/Frame/Xid/Flags.antt =====
-- The flags that decoding the information of an XID frame sets in frame.c, and what
-- patty_ax25_sock_params_negotiate of sock.c makes of them.
use patty.Prelude.{
  Bool, List, ap, arith, bit_or, false, if◌then◌else◌, leb, ltb, not, refl, suc, true, zero, ℕ, ◌%◌,
  ◌*◌, ◌+◌, ◌-◌, ◌/◌, ◌==◌, ◌^◌, ◌||◌, ◌≡◌,
}
use patty.Prelude.Bits.{or_step}
use native.Mathlib.Nat.{pow-suc}
use patty.Result.{Result, eio, err, fault, guard, ok, read, read_bytes, ◌>>=◌, ◌>>◌}
use patty.Sock.{Sock}
use patty.Sock.Params.{Params, apply_limits, negotiate}
use patty.Sock.Params.Negotiation.{negotiate_unchecked}
use patty.Frame.Xid.{
  be_value, cleared, decode_group_body, decode_groups, decode_param, decode_params, decode_xid,
  decode_xid_group, group_iso8885, group_params, group_size, save_xid_param,
}

-- The two lowest flags, which stand for no parameter, are clear.
abbrev IsKnown : Params → Type 0
IsKnown params = params.flags % 4 ≡ 0

Holds : Result (Params × ℕ) → Type 0
Holds (ok (params, n)) = IsKnown params
Holds (err e) = Unit
Holds fault = Unit

bind-Holds {ℓ} :
    {A : Type ℓ} (m : Result A) (k : A → Result (Params × ℕ))
    → ((a : A) → Holds (k a))
    → Holds (m >>= k)
unfolding Holds
bind-Holds (ok a) k h = h a
bind-Holds (err e) k h = tt
bind-Holds fault k h = tt

step-Holds :
    (m : Result (Params × ℕ)) (k : Params × ℕ → Result (Params × ℕ))
    → Holds m
    → ((next : Params × ℕ) → IsKnown next.0 → Holds (k next))
    → Holds (m >>= k)
unfolding Holds
step-Holds (ok next) k known h = h next known
step-Holds (err e) k known h = tt
step-Holds fault k known h = tt

if-Holds : (b : Bool) (x y : Result (Params × ℕ)) → Holds x → Holds y → Holds (if b then x else y)
if-Holds true x y hx hy = hx
if-Holds false x y hx hy = hy

-- A flag above the two lowest.
or_high : (f k : ℕ) → f % 4 ≡ 0 → bit_or f (2 ^ suc (suc k)) % 4 ≡ 0
or_high f k h =
    let half : 2 ^ suc (suc k) / 2 ≡ 2 ^ suc k = omega (arith, pow-suc 2 (suc k)) in
    let even : 2 ^ suc (suc k) % 2 ≡ 0 = omega (arith, pow-suc 2 (suc k)) in
    let even' : 2 ^ suc k % 2 ≡ 0 = omega (arith, pow-suc 2 k) in
    let shifted : bit_or (f / 2) (2 ^ suc (suc k) / 2) ≡ bit_or (f / 2) (2 ^ suc k) =
      ap (bit_or (f / 2)) half in
    let second : bit_or (f / 2) (2 ^ suc k) % 2 ≡ 0 =
      omega (arith, or_step (f / 2) (2 ^ suc k), even', h) in
    omega (arith, or_step f (2 ^ suc (suc k)), shifted, even, second, h)

if-IsKnown :
    (b : Bool) (p q : Params) → (b ≡ true → IsKnown p) → IsKnown q → IsKnown (if b then p else q)
if-IsKnown true p q hp hq = hp refl
if-IsKnown false p q hp hq = hq

save_xid_param-IsKnown :
    (params : Params) (kind value : ℕ) → IsKnown params → IsKnown (save_xid_param params kind value)
unfolding save_xid_param
save_xid_param-IsKnown params kind value h = if-IsKnown (kind == 2) _ _ (raised 0) (
    if-IsKnown (kind == 3) _ _ (raised 1) (
      if-IsKnown (kind == 5) _ _ (raised 3) (
        if-IsKnown (kind == 6) _ _ (raised 4) (
          if-IsKnown (kind == 7) _ _ (raised 5) (
            if-IsKnown (kind == 8) _ _ (raised 6) (
              if-IsKnown (kind == 9) _ _ (raised 7) (if-IsKnown (kind == 10) _ _ (raised 8) h)))))))
  where
    raised : (k : ℕ) → (kind == suc (suc k)) ≡ true → bit_or params.flags (2 ^ kind) % 4 ≡ 0
    raised k e =
        let same : kind ≡ suc (suc k) = ground (arith, e) in rw same (or_high params.flags k h)

decode_param-Holds :
    (buf : List ℕ) (offset : ℕ) (params : Params)
    → IsKnown params
    → Holds (decode_param buf offset params)
unfolding decode_param Holds
decode_param-Holds buf offset params h = bind-Holds (read buf offset) _ (λ id.
    bind-Holds (read buf (offset + 1)) _ (λ n.
      bind-Holds (if leb n 4 then read_bytes buf (offset + 2) n else fault) _
        (λ bytes. save_xid_param-IsKnown params id (be_value bytes) h)))

decode_params-Holds :
    (fuel : ℕ) (buf : List ℕ) (offset stop : ℕ) (params : Params)
    → IsKnown params
    → Holds (decode_params fuel buf offset stop params)
unfolding decode_params Holds
decode_params-Holds zero buf offset stop params h = if-Holds (ltb offset stop) _ _ tt h
decode_params-Holds (suc fuel) buf offset stop params h =
    if-Holds (ltb offset stop) _ _
      (step-Holds (decode_param buf offset params) _ (decode_param-Holds buf offset params h)
        (λ next known. decode_params-Holds fuel buf next.1 stop next.0 known))
      h

decode_xid_group-Holds :
    (params : Params) (buf : List ℕ) (offset len : ℕ)
    → IsKnown params
    → Holds (decode_xid_group params buf offset len)
unfolding decode_xid_group decode_group_body Holds
decode_xid_group-Holds params buf offset len h =
    bind-Holds (guard (not (ltb (len - offset) group_size)) eio >> read buf offset) _ (λ format.
      bind-Holds (read buf (offset + 1)) _ (λ kind. bind-Holds (read buf (offset + 2)) _ (λ high.
        bind-Holds (read buf (offset + 3)) _ (λ low.
          if-Holds (not (format == group_iso8885) || not (kind == group_params)) _ _ h (
            step-Holds
              (decode_params (high * 256 + low) buf (offset + group_size)
                (offset + group_size + (high * 256 + low)) cleared)
              _
              (decode_params-Holds (high * 256 + low) buf (offset + group_size)
                (offset + group_size + (high * 256 + low)) cleared refl)
              (λ done known.
                if-Holds (done.1 == offset + group_size + (high * 256 + low)) _ _ known tt))))))

decode_groups-Holds :
    (fuel : ℕ) (params : Params) (buf : List ℕ) (offset len : ℕ)
    → IsKnown params
    → Holds (decode_groups fuel params buf offset len)
unfolding decode_groups Holds
decode_groups-Holds zero params buf offset len h = if-Holds (ltb offset len) _ _ tt h
decode_groups-Holds (suc fuel) params buf offset len h =
    if-Holds (ltb offset len) _ _
      (step-Holds (decode_xid_group params buf offset len) _
        (decode_xid_group-Holds params buf offset len h)
        (λ group known. decode_groups-Holds fuel group.0 buf (offset + group.1) len known))
      h

decode_xid-Holds :
    (before : Params) (buf : List ℕ) (offset len : ℕ)
    → IsKnown before
    → Holds (decode_xid before buf offset len)
unfolding decode_xid Holds
decode_xid-Holds before buf offset len h =
    step-Holds (decode_groups len before buf offset len) _
      (decode_groups-Holds len before buf offset len h)
      (λ done known. if-Holds (done.1 == len) _ _ known tt)

-- Whatever an XID frame holds, parameters that have been decoded from it into a structure whose
-- two lowest flags are clear are never refused by the negotiation: it succeeds, changes nothing of
-- the parameters and no HDLC option of the socket, and only applies the limits.
pub negotiate-decode_xid :
    (sock : Sock) (before params : Params) (buf : List ℕ) (offset len taken : ℕ)
    → before.flags % 4 ≡ 0
    → decode_xid before buf offset len ≡ ok (params, taken)
    → negotiate sock params ≡ (apply_limits sock params, ok params)
unfolding Holds
negotiate-decode_xid sock before params buf offset len taken h decoded =
    negotiate_unchecked sock params (rw decoded at (decode_xid-Holds before buf offset len h))
