-- ===== src/Requests/Keeps/Opening.antt =====
-- The socket request: sock_save, and the table by descriptor behind it.
use patty.Prelude.{
  ==_refl, Bool, Bool-cases, Option, Option-cases, ap, arith, false, if◌then◌else◌, inl, inr, none,
  refl, some, some-injective, sym, true, ℕ, ◌+◌, ◌==◌, ◌∙◌, ◌≡◌, ◌≢◌,
}
use patty.Sock.{SockType}
use patty.Dict.{Bucket, dict_get, dict_set, or_null}
use patty.Dict.Lookup.{slot_find-dict_set_ne}
use patty.Requests.{Object, Server, put, write_at}
use patty.Requests.Tables.{
  client_save_by_sock, place_saved, save_at, save_for_all, save_for_client, saved, sock_save,
  sock_save_by_fd, ◌then◌,
}
use patty.Requests.Found.{saved-dict_get}
use patty.Requests.Calls.{new_object, server_socket}
use patty.Requests.Keeps.{
  Consistent, Consistent-SameSocks, Points, Points-SameAt, SameAt, SameSocks, Stays,
  client_save_by_sock-Stays, none-SameAt, none-ne_some, null, points, same, save_at-Stays,
  save_for_client-Stays, then-Stays,
}

dict_get-dict_set_ne :
    (dict : Bucket) (key value other : ℕ)
    → key ≢ other
    → dict_get (dict_set dict key value).0 other ≡ dict_get dict other
unfolding dict_get
dict_get-dict_set_ne dict key value other ne =
    ap or_null (slot_find-dict_set_ne dict key value other ne)

saved-others :
    (dict : Bucket) (key value other : ℕ) {after : Bucket}
    → saved (dict_set dict key value) ≡ some after
    → key ≢ other
    → dict_get after other ≡ dict_get dict other
saved-others dict key value other {after} e ne =
    elim (Bool-cases ((dict_set dict key value).1 == 0)) [
      | inl k ↦ absurd (none-ne_some (rw k at e))
      | inr k ↦
          let same_table : (dict_set dict key value).0 ≡ after = some-injective _ _ (rw k at e) in
          rw (← same_table) (dict_get-dict_set_ne dict key value other ne)
    ]

-- The server with a new socket in memory.
abbrev opened : Server → Object → Server
opened s obj = record (put s s.fresh obj) { fresh = s.fresh + 1 }

-- What is in memory is not at the pointer of the new socket.
Points-fresh :
    (s : Server) (obj : Object) (fd p : ℕ)
    → Consistent s
    → Points s.heap fd p
    → Points (write_at s.heap s.fresh (some obj)) fd p
Points-fresh s obj fd p c (null e) = null e
Points-fresh s obj fd p c (points o e f) = elim (Bool-cases (s.fresh == p)) [
  | inl k ↦ absurd (none-ne_some (sym (c.unused p (ground (arith, k))) ∙ e))
  | inr k ↦ points o (rw k e) f
]

opened-Consistent : (s : Server) (obj : Object) → Consistent s → Consistent (opened s obj)
opened-Consistent s obj c = record {
  socks = λ fd. Points-fresh s obj fd _ c (c.socks fd);
  unused = λ p h.
      let apart : (s.fresh == p) ≡ false = ground arith in rw apart (c.unused p (omega arith));
}

-- The new socket under its descriptor.
added-Consistent :
    (t : Server) (p : ℕ) (obj : Object) (dict : Bucket)
    → Consistent t
    → Points t.heap obj.fd p
    → saved (dict_set t.socks_by_fd obj.fd p) ≡ some dict
    → Consistent (record t { socks_by_fd = dict })
added-Consistent t p obj dict c new e = record { socks = at_fd; unused = c.unused }
  where
    at_fd : (fd : ℕ) → Points t.heap fd (dict_get dict fd)
    at_fd fd = elim (Bool-cases (obj.fd == fd)) [
      | inl k ↦ elim (saved-dict_get t.socks_by_fd obj.fd p) [
        | inl none_saved ↦ absurd (none-ne_some (sym none_saved ∙ e))
        | inr (after, l, m) ↦
            let table : after ≡ dict = some-injective _ _ (sym l ∙ e) in
            let here : obj.fd ≡ fd = ground (arith, k) in rw (← here) (rw (← table) (rw m new))
      ]
      | inr k ↦ rw (saved-others t.socks_by_fd obj.fd p fd e (ground (arith, k))) (c.socks fd)
    ]

-- The socket is given back where it could not be saved.
dropped-Consistent :
    (s t : Server) (obj : Object)
    → Consistent s
    → SameSocks (opened s obj) t
    → Consistent (record t { heap = write_at t.heap s.fresh none })
dropped-Consistent s t obj c h = record {
  socks = λ fd. rw h.by_fd (Points-SameAt fd _ back (c.socks fd));
  unused = λ p e. none-SameAt (back p) (c.unused p (omega (arith, h.fresh_is)));
}
  where
    back : (q : ℕ) → SameAt (s.heap q) (write_at t.heap s.fresh none q)
    back q = elim (Bool-cases (s.fresh == q)) [
      | inl k ↦ rw k (same (sym (c.unused q (ground (arith, k)))))
      | inr k ↦ rw k (rw k at (h.at q))
    ]

Stays-opened :
    (client p : ℕ) (obj : Object) (t : Server)
    → Stays t (
        save_at (place_saved obj.sock.state) p obj t
        then client_save_by_sock client obj
        then save_for_client client p obj)
Stays-opened client p obj t =
    then-Stays t _ (save_for_client client p obj)
      (then-Stays t _ (client_save_by_sock client obj)
        (save_at-Stays (place_saved obj.sock.state) p obj t) (client_save_by_sock-Stays client obj))
      (save_for_client-Stays client p obj)

-- The last save, and what server_socket makes of it.
finish-Consistent :
    (s : Server) (obj : Object) (before : Bool × Server)
    → Consistent s
    → Stays (opened s obj) before
    → let after = before then save_for_all s.fresh obj in
      Consistent
        (if after.0 then after.1 else record after.1 { heap = write_at after.1.heap s.fresh none })
unfolding save_for_all sock_save_by_fd Stays
finish-Consistent s obj (false, t) c h = dropped-Consistent s t obj c h
finish-Consistent s obj (true, t) c h =
    elim (Option-cases (saved (dict_set t.socks_by_fd obj.fd s.fresh))) [
      | inl e ↦ rw e (dropped-Consistent s t obj c h)
      | inr (dict, e) ↦ rw e (
          added-Consistent t s.fresh obj dict (Consistent-SameSocks h (opened-Consistent s obj c))
            new e)
    ]
  where
    new : Points t.heap obj.fd s.fresh
    new = Points-SameAt obj.fd s.fresh h.at (points obj (rw (==_refl s.fresh) refl) refl)

-- A socket request, whether or not it succeeds.
pub server_socket-Consistent :
    (client : ℕ) (fd : Option ℕ) (request : ℕ × SockType) (s : Server)
    → Consistent s
    → Consistent (server_socket client fd request s).1
unfolding server_socket sock_save
server_socket-Consistent client none (proto, kind) s c = c
server_socket-Consistent client (some fd) (proto, kind) s c =
    let obj = new_object proto kind fd in
    let pre =
      save_at (place_saved obj.sock.state) s.fresh obj (opened s obj)
      then client_save_by_sock client obj
      then save_for_client client s.fresh obj in
    let finished = finish-Consistent s obj pre c (Stays-opened client s.fresh obj (opened s obj)) in
    elim (Bool-cases (pre then save_for_all s.fresh obj).0) [
      | inl e ↦ rw e (rw e at finished)
      | inr e ↦ rw e (rw e at finished)
    ]
