-- ===== src/Server.antt =====
-- The server of server.c, as it handles the frames between one pair of addresses and the socket
-- between them. The tables of the server are seen at this pair: the socket that `socks_remote` has
-- for it, and the listening socket that `socks_local` has for the local address. The other tables
-- hold the socket as sock_save has left them, so that client_by_sock finds its client and
-- sock_close succeeds.
pub mod Action
pub mod Life
pub mod Reply
pub mod Ack
pub mod Info
pub mod Connect
pub mod Xid
pub mod Decode
pub mod Frames
pub mod Serve
pub mod Polls
mod Tests
use patty.Prelude.{Bool, List, Option, ℕ}
use patty.Frame.{Addr}
use patty.Result.{Errno}
use patty.Sock.{Sock}
use patty.Sock.Assembler.{Assembler}

-- What the server does to the outside: a frame that patty_ax25_if_send took; bytes written to the
-- client of the socket; the answer to a connect call, with its `eno` where it has failed; the
-- message of notify_accept, with the peer; a frame counted as dropped.
pub data Event : Type 0 where
  sent : List ℕ → Event
  delivered : List ℕ → Event
  answered : Option Errno → Event
  accepted : Addr → Event
  dropped : Event

-- What the handlers use of `patty_ax25_if`.
pub record Iface : Type 0 where
  pub addr : Addr
  pub aliases : List Addr
  pub mtu : ℕ
  pub flags_classes : ℕ

-- `live` says that the tables hold `sock`, `freed` that its memory has been given back, and `watched`
-- that `fds_watch` has its descriptor.
-- `calls` has the outcomes of the system calls to come (they succeed where it ends), and `events`
-- what was done, the latest first.
pub record Link : Type 0 where
  pub sock : Sock
  pub assembler : Option Assembler
  pub live : Bool
  pub freed : Bool
  pub watched : Bool
  pub iface : Iface
  pub listener : Option Sock
  pub calls : List Bool
  pub events : List Event
