-- ===== src/Sock/Window/Local.antt =====
-- The fields of a socket that patty_ax25_sock_ack of sock.c changes.
use patty.Prelude.{
  Bool, Bool-cases, Option, ap, false, if◌then◌else◌, inl, inr, none, refl, some, some-injective,
  subst, suc, true, zero, ℕ, ◌==◌, ◌>>=◌, ◌∙◌, ◌≡◌,
}
use patty.Sock.{Slot, Sock}
use patty.Sock.Window.{ack_loop, ack_slot, is_pending, sock_ack, tx_slot}

-- `after` has the slots and V(A) of its own, and the rest of `sock`.
abbrev pub OnlyWindow : Sock → Sock → Type 0
OnlyWindow sock after = after ≡ record sock { tx_slots = after.tx_slots; va = after.va }

ack_slot-OnlyWindow :
    (sock : Sock) (i ret : ℕ) (slot : Slot) → OnlyWindow sock (ack_slot sock i ret slot).0
unfolding ack_slot
ack_slot-OnlyWindow sock i ret slot = elim (Bool-cases (is_pending slot)) [
  | inl e ↦ rw e refl
  | inr e ↦ rw e refl
]

OnlyWindow-trans : (a b c : Sock) → OnlyWindow a b → OnlyWindow b c → OnlyWindow a c
OnlyWindow-trans a b c p q = q ∙ ap (λ (s : Sock). record s { tx_slots = c.tx_slots; va = c.va }) p

ack_loop-OnlyWindow :
    (rounds i : ℕ) (sock : Sock) (ret : ℕ) (after : Sock × ℕ)
    → ack_loop rounds i (sock, ret) ≡ some after
    → OnlyWindow sock after.0
unfolding ack_loop
ack_loop-OnlyWindow zero i sock ret after e =
    subst (λ (a : Sock × ℕ). OnlyWindow sock a.0) (some-injective _ _ e) refl
ack_loop-OnlyWindow (suc rounds) i sock ret after e =
    by_slot (λ next. ack_loop-OnlyWindow rounds (suc i) next.0 next.1 after) (tx_slot sock i) e
  where
    by_slot :
        ((next : Sock × ℕ) → ack_loop rounds (suc i) next ≡ some after → OnlyWindow next.0 after.0)
        → (found : Option Slot)
        → (found >>= λ slot. ack_loop rounds (suc i) (ack_slot sock i ret slot)) ≡ some after
        → OnlyWindow sock after.0
    by_slot ih none e = cc
    by_slot ih (some slot) e =
        let next = ack_slot sock i ret slot in
        OnlyWindow-trans sock next.0 after.0 (ack_slot-OnlyWindow sock i ret slot) (ih next e)

-- patty_ax25_sock_ack changes nothing but the slots and V(A).
pub sock_ack-OnlyWindow :
    (sock : Sock) (nr : ℕ) (after : Sock × ℕ)
    → sock_ack sock nr ≡ some after
    → OnlyWindow sock after.0
unfolding sock_ack
sock_ack-OnlyWindow sock nr after e = by_test _ (sock.va == nr) e
  where
    by_test :
        (rounds : ℕ) (test : Bool)
        → (if test then some (sock, 1) else ack_loop rounds sock.va (sock, 0)) ≡ some after
        → OnlyWindow sock after.0
    by_test rounds true e =
        subst (λ (a : Sock × ℕ). OnlyWindow sock a.0) (some-injective _ _ e) refl
    by_test rounds false e = ack_loop-OnlyWindow rounds sock.va sock 0 after e
