-- ===== src/Requests/Tests.antt =====
-- Tests of the requests of clients.
use patty.Prelude.{List, [], false, none, refl, some, ℕ, ◌*◌, ◌++◌, ◌∷◌, ◌≡◌}
use patty.Frame.{Addr}
use patty.Sock.{dgram}
use patty.Dict.{dict_get, dict_set, empty, find_at, or_null, slot_find}
use patty.Hash.{addr_hash, hash_end, hash_init}
use patty.Route.{Route, empty_addr, route_key, table_default}
use patty.Server.{Iface}
use patty.Server.Life.{new_sock}
use patty.Requests.{Server, reply, silent}
use patty.Requests.Tables.{sock_by_addr, sock_by_fd}
use patty.Requests.Connect.{server_connect}
use patty.Requests.Dispatch.{Request, ask_bind, ask_close, ask_connect, ask_socket, server_calls}
use patty.Requests.Calls.{new_object, server_bind}
use patty.Requests.Found.{Connects, server_connect-Connects}
use patty.Requests.Shared.{Unbound, server_bind_twice}
use patty.Requests.Keeps.{Consistent, null}
use patty.Requests.Keeps.Runs.{server_calls-Consistent}

abbrev station : ℕ → Addr
station n = record { callsign = 0x82 ∷ 0x84 ∷ 0x86 ∷ 0x40 ∷ 0x40 ∷ 0x40 ∷ []; ssid = 2 * n }

abbrev default_route : Route
default_route = record { iface = 1; dest = empty_addr; repeaters = []; hops = 0 }

abbrev kiss : Iface
kiss = record { addr = station 1; aliases = []; mtu = 256; flags_classes = 0 }

-- A server with a default route and the client 5.
abbrev start : Server
start = record {
  heap = λ p. none;
  dicts = λ p. empty;
  fresh = 1;
  socks_by_fd = empty;
  socks_by_client = (dict_set empty 5 1).0;
  socks_local = empty;
  socks_remote = empty;
  clients = (dict_set empty 5 5).0;
  clients_by_sock = empty;
  routes = (dict_set empty (route_key empty_addr) 1).0;
  route_at = λ p. default_route;
  iface_at = λ p. kiss;
  fds_watch = λ fd. false;
  calls = [];
  frames_sent = [];
}

start-Consistent : Consistent start
unfolding dict_get or_null slot_find find_at
start-Consistent = record { socks = λ fd. null refl; unused = λ p h. refl }

abbrev opens : List (ℕ × Request)
opens =
    (5, ask_socket (some 10) (some (0, dgram))) ∷ (5, ask_socket (some 11) (some (0, dgram))) ∷ []

abbrev run : List (ℕ × Request)
run =
    (5, ask_bind (some (10, station 3)))
    ∷ (5, ask_connect (some (11, station 4)))
    ∷ (5, ask_close (some 10))
    ∷ (6, ask_close (some 10))
    ∷ opens

server_calls-Consistent_example : Consistent (server_calls (opens ++ run) start)
server_calls-Consistent_example = server_calls-Consistent (opens ++ run) start start-Consistent

abbrev two_socks : Server
two_socks = server_calls opens start

connects_silently : (server_connect 5 (11, station 4) two_socks).0 ≡ silent
unfolding server_connect server_calls dict_get dict_set new_sock table_default route_key hash_end
    addr_hash hash_init
connects_silently = refl

server_connect-Connects_example :
    Connects 5
      (sock_by_fd two_socks.socks_by_fd 11)
      (station 4)
      (server_connect 5 (11, station 4) two_socks).1
server_connect-Connects_example =
    server_connect-Connects two_socks 5 11 (station 4) connects_silently

first_sock-Unbound : Unbound two_socks 10 1
unfolding server_calls dict_get dict_set new_sock sock_by_fd
first_sock-Unbound = record {
  obj = new_object 0 dgram 10;
  by_fd = refl;
  some_pointer = λ h. cc;
  in_heap = refl;
  unbound = refl;
}

second_sock-Unbound : Unbound two_socks 11 2
unfolding server_calls dict_get dict_set new_sock sock_by_fd
second_sock-Unbound = record {
  obj = new_object 0 dgram 11;
  by_fd = refl;
  some_pointer = λ h. cc;
  in_heap = refl;
  unbound = refl;
}

nobody_listens : sock_by_addr two_socks.socks_local (station 3) ≡ 0
unfolding server_calls dict_get dict_set new_sock sock_by_addr
nobody_listens = refl

server_bind_twice_example :
    ((server_bind (10, station 3) two_socks).0 ≡ reply none)
    × ((server_bind (11, station 3) (server_bind (10, station 3) two_socks).1).0 ≡ reply none)
server_bind_twice_example =
    server_bind_twice two_socks 10 11 1 2 (station 3) first_sock-Unbound second_sock-Unbound
      (λ h. cc) nobody_listens
