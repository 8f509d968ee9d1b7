-- ===== src/Requests.antt =====
-- The requests of clients to the server of server.c, over the tables as the dictionaries that they
-- are: the sockets by descriptor, by client, by local address and by pair of addresses.
pub mod Tables
pub mod Calls
pub mod Connect
pub mod Dispatch
pub mod Keeps
pub mod Found
pub mod Shared
mod Tests
use patty.Prelude.{Bool, List, Option, if◌then◌else◌, some, ℕ, ◌==◌}
use patty.Sock.{Sock}
use patty.Dict.{Bucket}
use patty.Route.{Route}
use patty.Result.{Errno}
use patty.Server.{Iface}

-- A `patty_ax25_sock` in memory: the socket, its descriptor, and its interface as a pointer.
pub record Object : Type 0 where
  pub sock : Sock
  pub fd : ℕ
  pub iface : ℕ

-- What a request comes to: a response to the client, with `eno` where `ret` is -1; the response of
-- server_listen with `ret` not set; no response, and 0 returned; -1 returned; or an access to
-- memory that is not there.
pub data Outcome : Type 0 where
  reply : Option Errno → Outcome
  reply_unset : Errno → Outcome
  silent : Outcome
  broken : Outcome
  crash : Outcome

-- `struct _patty_ax25_server` with the memory that its pointers point to: `heap` has the sockets and
-- `dicts` the dictionaries of `socks_by_client`, at pointers other than 0, and `fresh` is the pointer
-- that the next allocation returns. `frames_sent` has the frames that patty_ax25_if_send took, the latest
-- first, and `calls` the outcomes of the calls of it to come.
pub record Server : Type 0 where
  pub heap : ℕ → Option Object
  pub dicts : ℕ → Bucket
  pub fresh : ℕ
  pub socks_by_fd : Bucket
  pub socks_by_client : Bucket
  pub socks_local : Bucket
  pub socks_remote : Bucket
  pub clients : Bucket
  pub clients_by_sock : Bucket
  pub routes : Bucket
  pub route_at : ℕ → Route
  pub iface_at : ℕ → Iface
  pub fds_watch : ℕ → Bool
  pub calls : List Bool
  pub frames_sent : List (List ℕ)

-- Memory at a pointer is written.
abbrev pub write_at : {A : Type 0} → (ℕ → A) → ℕ → A → ℕ → A
write_at memory p a q = if p == q then a else memory q

abbrev pub put : Server → ℕ → Object → Server
put s p obj = record s { heap = write_at s.heap p (some obj) }

-- fd_watch and fd_clear, without the highest descriptor.
abbrev pub fd_set : Server → ℕ → Bool → Server
fd_set s fd on = record s { fds_watch = write_at s.fds_watch fd on }
