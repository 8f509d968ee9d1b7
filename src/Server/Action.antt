-- ===== src/Server/Action.antt =====
-- A handler of server.c as an action on a link: its return value and the link after it, which keeps
-- what was done before an error.
pub mod Keeps
pub mod Silent
use patty.Prelude.{Bool, List, Option, [], false, if◌then◌else◌, none, some, true, ℕ, ◌∷◌}
use patty.Result.{Errno, Result, err, fault, ok, stale}
use patty.Sock.{Sock}
use patty.Server.{Event, Link, delivered, sent}

abbrev pub Action : Type 0 → Type 0
Action A = Link → Result A × Link

-- What follows a call: nothing, where it has failed.
abbrev pub after : {A B : Type 0} → Result A × Link → (A → Action B) → Result B × Link
after (ok a, l) f = f a l
after (err e, l) f = (err e, l)
after (fault, l) f = (fault, l)

infixl 5 ◌>>=◌ ◌>>◌
unfoldable pub ◌>>=◌ : {A B : Type 0} → Action A → (A → Action B) → Action B
◌>>=◌ m f l = after (m l) f

unfoldable pub ◌>>◌ : {A B : Type 0} → Action A → Action B → Action B
◌>>◌ m k l = after (m l) (λ _. k)

-- The return values that are not negative count as one.
abbrev pub Step : Type 0
Step = Action (Unit {0})

unfoldable pub pure : {A : Type 0} → A → Action A
pure a l = (ok a, l)

unfoldable pub done : Step
done l = (ok tt, l)

-- `return -1`, with `errno`.
unfoldable pub fail : {A : Type 0} → Errno → Action A
fail e l = (err e, l)

unfoldable pub lift : {A : Type 0} → Result A → Action A
lift r l = (r, l)

-- The link as it is now.
unfoldable pub link : Action Link
link l = (ok l, l)

-- An assignment to fields of the socket.
unfoldable pub modify : (Sock → Sock) → Step
modify f l = (ok tt, record l { sock = f l.sock })

abbrev pub updated : {A : Type 0} → Option (Sock × A) → Link → Result A × Link
updated none l = (fault, l)
updated (some (sock, a)) l = (ok a, record l { sock = sock })

-- An operation on the socket that returns a value, or reaches outside an array.
unfoldable pub update : {A : Type 0} → (Sock → Option (Sock × A)) → Action A
update f l = updated (f l.sock) l

-- An operation that returns nothing.
unfoldable pub with_unit : Option Sock → Option (Sock × Unit {0})
with_unit none = none
with_unit (some sock) = some (sock, tt)

-- FD_SET and FD_CLR of the descriptor, by fd_watch and fd_clear.
unfoldable pub watch : Bool → Step
watch on l = (ok tt, record l { watched = on })

unfoldable pub emit : Event → Step
emit e l = (ok tt, record l { events = e ∷ l.events })

abbrev pub called : List Bool → Link → Result (Unit {0}) × Link
called [] l = (ok tt, l)
called (true ∷ rest) l = (ok tt, record l { calls = rest })
called (false ∷ rest) l = (err stale, record l { calls = rest })

-- A system call, or a call of the driver.
unfoldable pub call : Step
call l = called l.calls l

-- patty_ax25_if_send, where there is a frame to send.
unfoldable pub transmit : List ℕ → Step
transmit [] = done
transmit (b ∷ bs) = call >> emit (sent (b ∷ bs))

-- One of the sends of sock.c, as the socket is now.
unfoldable pub send : (Sock → Result (List ℕ)) → Step
send f = link >>= λ l. lift (f l.sock) >>= transmit

-- `write` to the descriptor of the socket.
unfoldable pub deliver : List ℕ → Step
deliver bytes = call >> emit (delivered bytes)

abbrev pub tried : {A : Type 0} → Result A × Link → Result Bool × Link
tried (ok a, l) = (ok true, l)
tried (err e, l) = (ok false, l)
tried (fault, l) = (fault, l)

-- A call whose return value is only looked at: whether it is not negative.
unfoldable pub attempt : {A : Type 0} → Action A → Action Bool
attempt m l = tried (m l)

-- A handler that returns 0 where there is no socket.
abbrev pub on_sock : Step → Step
on_sock m = link >>= λ l. if l.live then m else done

abbrev pub recovered : {A : Type 0} → Result A × Link → Step → Result A × Link
recovered (ok a, l) cleanup = (ok a, l)
recovered (err e, l) cleanup = after (cleanup l) (λ _. fail e)
recovered (fault, l) cleanup = (fault, l)

-- A call with what the `error_` labels do after it.
unfoldable pub on_error : {A : Type 0} → Action A → Step → Action A
on_error m cleanup l = recovered (m l) cleanup
