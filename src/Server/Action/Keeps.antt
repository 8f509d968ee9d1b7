-- ===== src/Server/Action/Keeps.antt =====
-- Actions that keep a property of the socket, whatever they come back with.
use patty.Prelude.{
  Bool, List, Option, [], false, if◌then◌else◌, none, refl, some, true, ℕ, ◌∷◌, ◌≡◌,
}
use patty.Result.{Errno, Result, err, fault, ok}
use patty.Sock.{Sock}
use patty.Server.{Event, Link, delivered, sent}
use patty.Server.Action.{
  Action, Step, after, attempt, call, called, deliver, done, emit, fail, lift, link, modify,
  on_sock, pure, send, transmit, tried, update, updated, watch, ◌>>=◌, ◌>>◌,
}

-- The socket has the property after the action where it has it before.
pub record Keeps (P : Sock → Type 0) {A : Type 0} (m : Action A) : Type 0 where
  pub keep : (l : Link) → P l.sock → P (m l).1.sock

module _ {P : Sock → Type 0} {A : Type 0} where
  pub if-Keeps :
      {m k : Action A} (test : Bool) → Keeps P m → Keeps P k → Keeps P (if test then m else k)
  if-Keeps true hm hk = hm
  if-Keeps false hm hk = hk

  pub pure-Keeps : (a : A) → Keeps P (pure a)
  unfolding pure
  pure-Keeps a = record { keep = λ l h. h }

  pub fail-Keeps : (e : Errno) → Keeps P (fail {A = A} e)
  unfolding fail
  fail-Keeps e = record { keep = λ l h. h }

  pub lift-Keeps : (r : Result A) → Keeps P (lift r)
  unfolding lift
  lift-Keeps r = record { keep = λ l h. h }

module _ (P : Sock → Type 0) {A : Type 0} where
  after-Keeps :
      {B : Type 0} (r : Result A × Link) (f : A → Action B)
      → ((a : A) → Keeps P (f a))
      → P r.1.sock
      → P (after r f).1.sock
  after-Keeps (ok a, l) f hf h = (hf a).keep l h
  after-Keeps (err e, l) f hf h = h
  after-Keeps (fault, l) f hf h = h

  tried-Keeps : (r : Result A × Link) → P r.1.sock → P (tried r).1.sock
  tried-Keeps (ok a, l) h = h
  tried-Keeps (err e, l) h = h
  tried-Keeps (fault, l) h = h

  updated-Keeps :
      (out : Option (Sock × A)) (l : Link)
      → ((next : Sock) (a : A) → out ≡ some (next, a) → P next)
      → P l.sock
      → P (updated out l).1.sock
  updated-Keeps none l hf h = h
  updated-Keeps (some (next, a)) l hf h = hf next a refl

module _ (P : Sock → Type 0) where
  called-Keeps : (calls : List Bool) (l : Link) → P l.sock → P (called calls l).1.sock
  called-Keeps [] l h = h
  called-Keeps (true ∷ rest) l h = h
  called-Keeps (false ∷ rest) l h = h

module _ {P : Sock → Type 0} {A : Type 0} where
  pub bind-Keeps :
      {B : Type 0} {m : Action A} {f : A → Action B}
      → Keeps P m
      → ((a : A) → Keeps P (f a))
      → Keeps P (m >>= f)
  unfolding ◌>>=◌
  bind-Keeps {m = m} {f = f} hm hf = record { keep = λ l h. after-Keeps P (m l) f hf (hm.keep l h) }

  pub then-Keeps :
      {B : Type 0} {m : Action A} {k : Action B} → Keeps P m → Keeps P k → Keeps P (m >> k)
  unfolding ◌>>◌
  then-Keeps {m = m} {k = k} hm hk = record {
    keep = λ l h. after-Keeps P (m l) (λ _. k) (λ _. hk) (hm.keep l h);
  }

  pub attempt-Keeps : {m : Action A} → Keeps P m → Keeps P (attempt m)
  unfolding attempt
  attempt-Keeps {m = m} hm = record { keep = λ l h. tried-Keeps P (m l) (hm.keep l h) }

  pub update-Keeps :
      {f : Sock → Option (Sock × A)}
      → ((sock : Sock) (next : Sock) (a : A) → f sock ≡ some (next, a) → P sock → P next)
      → Keeps P (update f)
  unfolding update
  update-Keeps {f = f} hf = record {
    keep = λ l h. updated-Keeps P (f l.sock) l (λ next a e. hf l.sock next a e h) h;
  }

module _ {P : Sock → Type 0} where
  pub done-Keeps : Keeps P done
  unfolding done
  done-Keeps = record { keep = λ l h. h }

  pub link-Keeps : Keeps P link
  unfolding link
  link-Keeps = record { keep = λ l h. h }

  pub modify-Keeps : (f : Sock → Sock) → ((sock : Sock) → P sock → P (f sock)) → Keeps P (modify f)
  unfolding modify
  modify-Keeps f hf = record { keep = λ l h. hf l.sock h }

  pub watch-Keeps : (on : Bool) → Keeps P (watch on)
  unfolding watch
  watch-Keeps on = record { keep = λ l h. h }

  pub emit-Keeps : (e : Event) → Keeps P (emit e)
  unfolding emit
  emit-Keeps e = record { keep = λ l h. h }

  pub call-Keeps : Keeps P call
  unfolding call
  call-Keeps = record { keep = λ l h. called-Keeps P l.calls l h }

  pub transmit-Keeps : (bytes : List ℕ) → Keeps P (transmit bytes)
  unfolding transmit
  transmit-Keeps [] = done-Keeps
  transmit-Keeps (b ∷ bs) = then-Keeps call-Keeps (emit-Keeps (sent (b ∷ bs)))

  pub send-Keeps : (f : Sock → Result (List ℕ)) → Keeps P (send f)
  unfolding send
  send-Keeps f = bind-Keeps link-Keeps (λ l. bind-Keeps (lift-Keeps (f l.sock)) transmit-Keeps)

  pub deliver-Keeps : (bytes : List ℕ) → Keeps P (deliver bytes)
  unfolding deliver
  deliver-Keeps bytes = then-Keeps call-Keeps (emit-Keeps (delivered bytes))

  pub on_sock-Keeps : {m : Step} → Keeps P m → Keeps P (on_sock m)
  on_sock-Keeps hm = bind-Keeps link-Keeps (λ l. if-Keeps l.live hm done-Keeps)

-- The socket has the property after the action on this link.
pub record Leaves (P : Sock → Type 0) (l : Link) {A : Type 0} (m : Action A) : Type 0 where
  pub left : P (m l).1.sock

module _ {P : Sock → Type 0} {l : Link} {A : Type 0} where
  pub Keeps-Leaves : {m : Action A} → P l.sock → Keeps P m → Leaves P l m
  Keeps-Leaves h hm = record { left = hm.keep l h }

  pub if-Leaves :
      {m k : Action A} (test : Bool)
      → Leaves P l m
      → Leaves P l k
      → Leaves P l (if test then m else k)
  if-Leaves true hm hk = hm
  if-Leaves false hm hk = hk
