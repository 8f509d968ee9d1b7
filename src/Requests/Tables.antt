-- ===== src/Requests/Tables.antt =====
-- The tables of server.c: the lookups, saves and deletes of the functions from sock_by_fd to
-- sock_close.
use patty.Prelude.{Bool, Option, false, if◌then◌else◌, none, some, true, ℕ, ◌==◌}
use patty.Frame.{Addr}
use patty.Sock.{State, established, listening, pending_accept, pending_connect, pending_disconnect}
use patty.Hash.{addr_hash, hash_end, hash_init}
use patty.Dict.{Bucket, dict_delete, dict_get, dict_set}
use patty.Requests.{Object, Server, fd_set, write_at}

-- `sock_by_fd`
unfoldable pub sock_by_fd : Bucket → ℕ → ℕ
sock_by_fd dict fd = dict_get dict fd

-- `hash_addr`
unfoldable pub hash_addr : Addr → ℕ
hash_addr addr = hash_end (addr_hash hash_init addr)

-- `hash_addrpair`
unfoldable pub hash_addrpair : Addr → Addr → ℕ
hash_addrpair local remote = hash_end (addr_hash (addr_hash hash_init local) remote)

-- `sock_by_addr`
unfoldable pub sock_by_addr : Bucket → Addr → ℕ
unfolding hash_addr
sock_by_addr dict addr = dict_get dict (hash_addr addr)

-- `sock_by_addrpair`
unfoldable pub sock_by_addrpair : Bucket → Addr → Addr → ℕ
unfolding hash_addrpair
sock_by_addrpair dict local remote = dict_get dict (hash_addrpair local remote)

-- A table after patty_dict_set of a pointer, if it did not return NULL.
abbrev pub saved : Bucket × ℕ → Option Bucket
saved after = if after.1 == 0 then none else some after.0

-- `sock_save_by_fd` of the socket at `p`
unfoldable pub sock_save_by_fd : Bucket → ℕ → Object → Option Bucket
sock_save_by_fd dict p obj = saved (dict_set dict obj.fd p)

-- `client_by_sock`: the client, or 0 for none.
unfoldable pub client_by_sock : Server → Object → ℕ
client_by_sock s obj = dict_get s.clients_by_sock obj.fd

-- The steps of a function that returns -1 where one of them does, on the server, which keeps what was
-- done before.
abbrev pub Step : Type 0
Step = Server → Bool × Server

abbrev pub kept : Server → Option Bucket → (Bucket → Server) → Bool × Server
kept s none f = (false, s)
kept s (some dict) f = (true, f dict)

infixl 5 ◌then◌
abbrev pub ◌then◌ : Bool × Server → Step → Bool × Server
(true, s) then k = k s
(false, s) then k = (false, s)

-- `client_save_by_sock`
unfoldable pub client_save_by_sock : ℕ → Object → Step
client_save_by_sock client obj s =
    kept s (saved (dict_set s.clients_by_sock obj.fd client))
      λ dict. record s { clients_by_sock = dict }

-- `sock_save_local`
unfoldable pub sock_save_local : ℕ → Object → Step
unfolding hash_addr
sock_save_local p obj s =
    kept s (saved (dict_set s.socks_local (hash_addr obj.sock.local) p))
      λ dict. record s { socks_local = dict }

-- `sock_save_remote`
unfoldable pub sock_save_remote : ℕ → Object → Step
unfolding hash_addrpair
sock_save_remote p obj s =
    kept s (saved (dict_set s.socks_remote (hash_addrpair obj.sock.local obj.sock.remote) p))
      λ dict. record s { socks_remote = dict }

-- `sock_delete_local`
unfoldable pub sock_delete_local : Object → Step
unfolding hash_addr
sock_delete_local obj s =
    let after = dict_delete s.socks_local (hash_addr obj.sock.local) in
    (after.1, record s { socks_local = after.0 })

-- `sock_delete_remote`
unfoldable pub sock_delete_remote : Object → Step
unfolding hash_addrpair
sock_delete_remote obj s =
    let after = dict_delete s.socks_remote (hash_addrpair obj.sock.local obj.sock.remote) in
    (after.1, record s { socks_remote = after.0 })

-- The table that a socket in this state is in besides those by descriptor.
pub data Place : Type 0 where
  by_local by_pair nowhere : Place

-- The `switch` of sock_save.
unfoldable pub place_saved : State → Place
place_saved listening = by_local
place_saved pending_accept = by_pair
place_saved pending_connect = by_pair
place_saved established = by_pair
place_saved _ = nowhere

-- The `switch` of sock_close.
unfoldable pub place_closed : State → Place
unfolding place_saved
place_closed pending_disconnect = by_pair
place_closed state = place_saved state

abbrev pub save_at : Place → ℕ → Object → Step
save_at by_local p obj s = sock_save_local p obj s
save_at by_pair p obj s = sock_save_remote p obj s
save_at nowhere p obj s = (true, s)

abbrev pub delete_at_place : Place → Object → Step
delete_at_place by_local obj s = sock_delete_local obj s
delete_at_place by_pair obj s = sock_delete_remote obj s
delete_at_place nowhere obj s = (true, s)

-- The dictionary of the client, and the socket in it.
unfoldable pub save_for_client : ℕ → ℕ → Object → Step
unfolding sock_save_by_fd
save_for_client client p obj s =
    let socks = dict_get s.socks_by_client client in
    if socks == 0
    then (false, s)
    else (kept s (sock_save_by_fd (s.dicts socks) p obj)
        λ dict. record s { dicts = write_at s.dicts socks dict })

-- `sock_save_by_fd(server->socks_by_fd, sock)`
unfoldable pub save_for_all : ℕ → Object → Step
unfolding sock_save_by_fd
save_for_all p obj s =
    kept s (sock_save_by_fd s.socks_by_fd p obj) λ dict. record s { socks_by_fd = dict }

-- sock_save
unfoldable pub sock_save : ℕ → ℕ → Object → Step
unfolding place_saved sock_save_local sock_save_remote client_save_by_sock save_for_client
    save_for_all
sock_save client p obj s =
    save_at (place_saved obj.sock.state) p obj s
    then client_save_by_sock client obj
    then save_for_client client p obj
    then save_for_all p obj

-- The socket leaves the dictionary of its client.
unfoldable pub delete_for_client : Object → Step
unfolding client_by_sock
delete_for_client obj s =
    let client = client_by_sock s obj in
    let socks = dict_get s.socks_by_client client in
    let after = dict_delete (s.dicts socks) obj.fd in
    if client == 0
    then (false, s)
    else if socks == 0
    then (false, s)
    else (after.1, record s { dicts = write_at s.dicts socks after.0 })

unfoldable pub delete_for_all : Object → Step
delete_for_all obj s =
    let after = dict_delete s.socks_by_fd obj.fd in (after.1, record s { socks_by_fd = after.0 })

-- client_delete_by_sock, fd_clear and patty_ax25_sock_destroy of the socket at `p`.
unfoldable pub destroyed : ℕ → Object → Step
destroyed p obj s = (
  true,
  fd_set
      (record s {
        clients_by_sock = (dict_delete s.clients_by_sock obj.fd).0;
        heap = write_at s.heap p none;
      })
      obj.fd false,
)

-- sock_close
unfoldable pub sock_close : ℕ → Object → Step
unfolding place_closed sock_delete_local sock_delete_remote delete_for_client delete_for_all
    destroyed
sock_close p obj s =
    delete_at_place (place_closed obj.sock.state) obj s
    then delete_for_client obj
    then delete_for_all obj
    then destroyed p obj
