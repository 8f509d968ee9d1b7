-- ===== src/Requests/Keeps.antt =====
-- What the requests keep of the table of sockets by descriptor.
pub mod Opening
pub mod Closing
pub mod Handlers
pub mod Runs
use patty.Prelude.{
  Bool, Bool-cases, Option, ap, arith, false, inl, inr, none, refl, some, some-injective, sym, true,
  ℕ, ◌==◌, ◌∙◌, ◌≡◌, ◌≤◌,
}
use patty.Dict.{Bucket, dict_get}
use patty.Requests.{Object, Server, put, write_at}
use patty.Requests.Tables.{
  Place, Step, by_local, by_pair, client_by_sock, client_save_by_sock, delete_at_place,
  delete_for_client, kept, nowhere, save_at, save_for_client, sock_delete_local, sock_delete_remote,
  sock_save_local, sock_save_remote, ◌then◌,
}

-- The pointer is NULL, or that of a socket in memory with this descriptor.
pub data Points (heap : ℕ → Option Object) (fd p : ℕ) : Type 0 where
  null : p ≡ 0 → Points heap fd p
  points : (obj : Object) → heap p ≡ some obj → obj.fd ≡ fd → Points heap fd p

-- The table of sockets by descriptor has sockets in memory, each under its own descriptor; what has
-- not been allocated is not in memory.
pub record Consistent (s : Server) : Type 0 where
  pub socks : (fd : ℕ) → Points s.heap fd (dict_get s.socks_by_fd fd)
  pub unused : (p : ℕ) → s.fresh ≤ p → s.heap p ≡ none

-- The pointer leads to what it did, or to the same socket with other contents.
pub data SameAt (before after : Option Object) : Type 0 where
  same : after ≡ before → SameAt before after
  changed : (o n : Object) → before ≡ some o → after ≡ some n → n.fd ≡ o.fd → SameAt before after

-- The sockets and the table by descriptor are the same.
pub record SameSocks (s t : Server) : Type 0 where
  pub by_fd : t.socks_by_fd ≡ s.socks_by_fd
  pub fresh_is : t.fresh ≡ s.fresh
  pub at : (p : ℕ) → SameAt (s.heap p) (t.heap p)

pub none-ne_some : {A : Type 0} {a : A} → none ≡ some a → ⊥
none-ne_some h = cc

SameAt-trans : {a b c : Option Object} → SameAt a b → SameAt b c → SameAt a c
SameAt-trans (same e) (same k) = same (k ∙ e)
SameAt-trans (same e) (changed o n k l f) = changed o n (sym e ∙ k) l f
SameAt-trans (changed o n e k f) (same l) = changed o n e (l ∙ k) f
SameAt-trans (changed o n e k f) (changed m r l j g) =
    changed o r e j (g ∙ ap (λ (x : Object). x.fd) (some-injective _ _ (sym l ∙ k)) ∙ f)

pub SameSocks-refl : (s : Server) → SameSocks s s
SameSocks-refl s = record { by_fd = refl; fresh_is = refl; at = λ p. same refl }

pub SameSocks-trans : {s t u : Server} → SameSocks s t → SameSocks t u → SameSocks s u
SameSocks-trans h k = record {
  by_fd = k.by_fd ∙ h.by_fd;
  fresh_is = k.fresh_is ∙ h.fresh_is;
  at = λ p. SameAt-trans (h.at p) (k.at p);
}

-- The contents of a socket in memory are written.
pub SameSocks-put :
    (s : Server) (p : ℕ) (o n : Object) → s.heap p ≡ some o → n.fd ≡ o.fd → SameSocks s (put s p n)
SameSocks-put s p o n e f = record { by_fd = refl; fresh_is = refl; at = at_pointer }
  where
    at_pointer : (q : ℕ) → SameAt (s.heap q) (write_at s.heap p (some n) q)
    at_pointer q = elim (Bool-cases (p == q)) [
      | inl k ↦ let here : p ≡ q = ground (arith, k) in rw k (changed o n (rw (← here) e) refl f)
      | inr k ↦ rw k (same refl)
    ]

pub Points-SameAt :
    {heap memory : ℕ → Option Object} (fd p : ℕ)
    → ((q : ℕ) → SameAt (heap q) (memory q))
    → Points heap fd p
    → Points memory fd p
Points-SameAt fd p h (null e) = null e
Points-SameAt fd p h (points obj e f) = elim (h p) [
  | same k ↦ points obj (k ∙ e) f
  | changed o n k l g ↦
      points n l (g ∙ ap (λ (x : Object). x.fd) (some-injective _ _ (sym k ∙ e)) ∙ f)
]

pub none-SameAt :
    {before after : Option Object} → SameAt before after → before ≡ none → after ≡ none
none-SameAt (same k) e = k ∙ e
none-SameAt (changed o n k l g) e = cc

pub Consistent-SameSocks : {s t : Server} → SameSocks s t → Consistent s → Consistent t
Consistent-SameSocks {s} {t} h c = record {
  socks = λ fd. rw h.by_fd (Points-SameAt fd _ h.at (c.socks fd));
  unused = λ p e. none-SameAt (h.at p) (c.unused p (rw h.fresh_is at e));
}

-- A step of a function over the tables.
unfoldable pub Stays : Server → Bool × Server → Type 0
Stays s after = SameSocks s after.1

pub then-Stays :
    (s : Server) (after : Bool × Server) (k : Step)
    → Stays s after
    → ((t : Server) → Stays t (k t))
    → Stays s (after then k)
unfolding Stays
then-Stays s (true, t) k h f = SameSocks-trans h (f t)
then-Stays s (false, t) k h f = h

pub kept-Stays :
    (s : Server) (o : Option Bucket) (f : Bucket → Server)
    → ((dict : Bucket) → SameSocks s (f dict))
    → Stays s (kept s o f)
unfolding Stays
kept-Stays s none f h = SameSocks-refl s
kept-Stays s (some dict) f h = h dict

-- The steps that do not touch the table by descriptor.
pub client_save_by_sock-Stays :
    (client : ℕ) (obj : Object) (s : Server) → Stays s (client_save_by_sock client obj s)
unfolding client_save_by_sock
client_save_by_sock-Stays client obj s =
    kept-Stays s _ _ λ dict. record { by_fd = refl; fresh_is = refl; at = λ p. same refl }

pub sock_save_local-Stays : (p : ℕ) (obj : Object) (s : Server) → Stays s (sock_save_local p obj s)
unfolding sock_save_local
sock_save_local-Stays p obj s =
    kept-Stays s _ _ λ dict. record { by_fd = refl; fresh_is = refl; at = λ p. same refl }

pub sock_save_remote-Stays :
    (p : ℕ) (obj : Object) (s : Server) → Stays s (sock_save_remote p obj s)
unfolding sock_save_remote
sock_save_remote-Stays p obj s =
    kept-Stays s _ _ λ dict. record { by_fd = refl; fresh_is = refl; at = λ p. same refl }

pub save_at-Stays :
    (place : Place) (p : ℕ) (obj : Object) (s : Server) → Stays s (save_at place p obj s)
unfolding Stays
save_at-Stays by_local p obj s = sock_save_local-Stays p obj s
save_at-Stays by_pair p obj s = sock_save_remote-Stays p obj s
save_at-Stays nowhere p obj s = SameSocks-refl s

pub delete_at_place-Stays :
    (place : Place) (obj : Object) (s : Server) → Stays s (delete_at_place place obj s)
unfolding Stays sock_delete_local sock_delete_remote
delete_at_place-Stays by_local obj s = record { by_fd = refl; fresh_is = refl; at = λ p. same refl }
delete_at_place-Stays by_pair obj s = record { by_fd = refl; fresh_is = refl; at = λ p. same refl }
delete_at_place-Stays nowhere obj s = SameSocks-refl s

pub save_for_client-Stays :
    (client p : ℕ) (obj : Object) (s : Server) → Stays s (save_for_client client p obj s)
unfolding Stays save_for_client
save_for_client-Stays client p obj s = elim (Bool-cases (dict_get s.socks_by_client client == 0)) [
  | inl e ↦ rw e (SameSocks-refl s)
  | inr e ↦
      rw e (kept-Stays s _ _ λ dict. record { by_fd = refl; fresh_is = refl; at = λ p. same refl })
]

pub delete_for_client-Stays : (obj : Object) (s : Server) → Stays s (delete_for_client obj s)
unfolding Stays delete_for_client
delete_for_client-Stays obj s = elim (Bool-cases (client_by_sock s obj == 0)) [
  | inl e ↦ rw e (SameSocks-refl s)
  | inr e ↦ elim (Bool-cases (dict_get s.socks_by_client (client_by_sock s obj) == 0)) [
    | inl k ↦ rw (e, k) (SameSocks-refl s)
    | inr k ↦ rw (e, k) (record { by_fd = refl; fresh_is = refl; at = λ p. same refl })
  ]
]
