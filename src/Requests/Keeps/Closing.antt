-- ===== src/Requests/Keeps/Closing.antt =====
-- The close request: sock_shutdown, and the tables behind sock_close.
use patty.Prelude.{
  Bool, Bool-cases, ap, arith, false, inl, inr, none, refl, some, some-injective, sym, true, ℕ,
  ◌==◌, ◌∙◌, ◌≡◌, ◌≤◌,
}
use patty.Dict.{dict_delete, dict_get}
use patty.Dict.Deleted.{dict_get-dict_delete, dict_get-dict_delete_self}
use patty.Requests.{Object, Server, write_at}
use patty.Requests.Tables.{
  delete_at_place, delete_for_all, delete_for_client, destroyed, place_closed, sock_close, ◌then◌,
}
use patty.Requests.Keeps.{
  Consistent, Consistent-SameSocks, Points, SameSocks, Stays, changed, delete_at_place-Stays,
  delete_for_client-Stays, null, points, same, then-Stays,
}

-- The pointer is that of a socket with this descriptor.
pub data InMemory (s : Server) (p fd : ℕ) : Type 0 where
  in_memory : (obj : Object) → s.heap p ≡ some obj → obj.fd ≡ fd → InMemory s p fd

pub InMemory-SameSocks :
    (p fd : ℕ) {s t : Server} → SameSocks s t → InMemory s p fd → InMemory t p fd
InMemory-SameSocks p fd h (in_memory obj e f) = elim (h.at p) [
  | same k ↦ in_memory obj (k ∙ e) f
  | changed o n k l g ↦
      in_memory n l (g ∙ ap (λ (x : Object). x.fd) (some-injective _ _ (sym k ∙ e)) ∙ f)
]

-- A descriptor is taken out of the table.
lost-Consistent :
    (t : Server) (fd : ℕ)
    → Consistent t
    → Consistent (record t { socks_by_fd = (dict_delete t.socks_by_fd fd).0 })
lost-Consistent t fd c = record {
  socks = λ other. elim (dict_get-dict_delete t.socks_by_fd fd other) [
    | inl e ↦ null e
    | inr e ↦ rw e (c.socks other)
  ];
  unused = c.unused;
}

-- The socket that was under it is given back.
freed-Points :
    (t : Server) (p fd other q : ℕ)
    → InMemory t p fd
    → (fd == other) ≡ false
    → Points t.heap other q
    → Points (write_at t.heap p none) other q
freed-Points t p fd other q m apart (null e) = null e
freed-Points t p fd other q (in_memory obj e f) apart (points o k g) = elim (Bool-cases (p == q)) [
  | inl l ↦
      let here : p ≡ q = ground (arith, l) in
      let one : obj ≡ o = some-injective _ _ (sym e ∙ rw here k) in
      let clash : fd ≡ other = sym f ∙ ap (λ (x : Object). x.fd) one ∙ g in
      absurd (ground (arith, clash, apart))
  | inr l ↦ points o (rw l k) g
]

freed-Consistent :
    (t : Server) (p fd : ℕ)
    → Consistent t
    → InMemory t p fd
    → Consistent
        (record t { socks_by_fd = (dict_delete t.socks_by_fd fd).0; heap = write_at t.heap p none })
freed-Consistent t p fd c m = record { socks = at_fd; unused = still }
  where
    at_fd :
        (other : ℕ)
        → Points (write_at t.heap p none) other (dict_get (dict_delete t.socks_by_fd fd).0 other)
    at_fd other = elim (Bool-cases (fd == other)) [
      | inl e ↦
          let here : fd ≡ other = ground (arith, e) in
          null (rw (← here) (dict_get-dict_delete_self t.socks_by_fd fd))
      | inr e ↦ freed-Points t p fd other _ m e ((lost-Consistent t fd c).socks other)
    ]

    still : (q : ℕ) → t.fresh ≤ q → write_at t.heap p none q ≡ none
    still q h = elim (Bool-cases (p == q)) [ inl e ↦ rw e refl | inr e ↦ rw e (c.unused q h) ]

Stays-deleted :
    (obj : Object) (s : Server)
    → Stays s (delete_at_place (place_closed obj.sock.state) obj s then delete_for_client obj)
Stays-deleted obj s =
    then-Stays s _ (delete_for_client obj)
      (delete_at_place-Stays (place_closed obj.sock.state) obj s) (delete_for_client-Stays obj)

closing-Consistent :
    (p : ℕ) (obj : Object) (s : Server) (before : Bool × Server)
    → Consistent s
    → InMemory s p obj.fd
    → Stays s before
    → Consistent (before then delete_for_all obj then destroyed p obj).1
unfolding delete_for_all destroyed Stays
closing-Consistent p obj s (false, t) c m h = Consistent-SameSocks h c
closing-Consistent p obj s (true, t) c m h =
    let now = Consistent-SameSocks h c in
    elim (Bool-cases (dict_delete t.socks_by_fd obj.fd).1) [
      | inl e ↦ rw e (
          let done = freed-Consistent t p obj.fd now (InMemory-SameSocks p obj.fd h m) in
          record { socks = done.socks; unused = done.unused })
      | inr e ↦ rw e (lost-Consistent t obj.fd now)
    ]

pub sock_close-Consistent :
    (p : ℕ) (obj : Object) (s : Server)
    → Consistent s
    → InMemory s p obj.fd
    → Consistent (sock_close p obj s).1
unfolding sock_close
sock_close-Consistent p obj s c m = closing-Consistent p obj s _ c m (Stays-deleted obj s)
