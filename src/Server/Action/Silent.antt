-- ===== src/Server/Action/Silent.antt =====
-- Actions that succeed and change nothing but the socket.
use patty.Prelude.{Bool, List, Option, [], false, if◌then◌else◌, refl, some, true, ◌∷◌, ◌≡◌}
use patty.Result.{ok}
use patty.Sock.{Sock}
use patty.Server.{Link}
use patty.Server.Action.{Action, Step, called, done, modify, update, ◌>>=◌, ◌>>◌}

-- From a socket with the property, the action succeeds and leaves one, and the rest of the link is
-- as it was.
pub record Silent (P : Sock → Type 0) {A : Type 0} (m : Action A) : Type 0 where
  pub run :
      (l : Link)
      → P l.sock
      → (a : A) × (next : Sock) × ((m l ≡ (ok a, record l { sock = next })) × P next)

-- Where no outcome is left, the calls succeed.
pub called-none : (calls : List Bool) (l : Link) → calls ≡ [] → called calls l ≡ (ok tt, l)
called-none [] l e = refl
called-none (c ∷ calls) l e = cc

module _ {P : Sock → Type 0} where
  pub if-Silent :
      {m k : Step} (test : Bool) → Silent P m → Silent P k → Silent P (if test then m else k)
  if-Silent true hm hk = hm
  if-Silent false hm hk = hk

  pub bind-Silent :
      {A B : Type 0} {m : Action A} {f : A → Action B}
      → Silent P m
      → ((a : A) → Silent P (f a))
      → Silent P (m >>= f)
  unfolding ◌>>=◌
  bind-Silent hm hf = record {
    run = λ l h.
        let first = hm.run l h in
        let second = (hf first.0).run (record l { sock = first.1 }) first.2.1 in
        (second.0, second.1, (rw first.2.0 second.2.0, second.2.1));
  }

  pub then-Silent :
      {A B : Type 0} {m : Action A} {k : Action B} → Silent P m → Silent P k → Silent P (m >> k)
  unfolding ◌>>◌
  then-Silent hm hk = record {
    run = λ l h.
        let first = hm.run l h in
        let second = hk.run (record l { sock = first.1 }) first.2.1 in
        (second.0, second.1, (rw first.2.0 second.2.0, second.2.1));
  }

  pub done-Silent : Silent P done
  unfolding done
  done-Silent = record { run = λ l h. (tt, l.sock, (refl, h)) }

  pub modify-Silent :
      (f : Sock → Sock) → ((sock : Sock) → P sock → P (f sock)) → Silent P (modify f)
  unfolding modify
  modify-Silent f hf = record { run = λ l h. (tt, f l.sock, (refl, hf l.sock h)) }

  pub update-Silent :
      {A : Type 0} (f : Sock → Option (Sock × A))
      → ((sock : Sock) → P sock → (out : Sock × A) × ((f sock ≡ some out) × P out.0))
      → Silent P (update f)
  unfolding update
  update-Silent f hf = record {
    run = λ l h. let out = hf l.sock h in (out.0.1, out.0.0, (rw out.1.0 refl, out.1.1));
  }
