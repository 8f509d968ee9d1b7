-- ===== src/Requests/Dispatch.antt =====
-- The table server_calls of server.c, and requests one after another.
use patty.Prelude.{List, Option, [], ℕ, ◌∷◌}
use patty.Frame.{Addr}
use patty.Sock.{SockType}
use patty.Requests.{Server}
use patty.Requests.Calls.{
  Handler, SockParams, server_accept, server_bind, server_listen, server_socket, setsockopt_params,
  with_request,
}
use patty.Requests.Connect.{server_close, server_connect}

-- A request as it has been read, or not.
pub data Request : Type 0 where
  ask_socket : Option ℕ → Option (ℕ × SockType) → Request
  ask_params : Option (ℕ × SockParams) → Request
  ask_bind : Option (ℕ × Addr) → Request
  ask_listen : Option ℕ → Request
  ask_accept : Option ℕ → Request
  ask_connect : Option (ℕ × Addr) → Request
  ask_close : Option ℕ → Request

-- `server_calls`, for the client that handle_client has read the request from.
unfoldable pub server_call : ℕ → Request → Handler
unfolding server_socket setsockopt_params server_bind server_listen server_accept server_connect
    server_close
server_call client (ask_socket opened request) = with_request request (server_socket client opened)
server_call client (ask_params request) = with_request request setsockopt_params
server_call client (ask_bind request) = with_request request server_bind
server_call client (ask_listen request) = with_request request server_listen
server_call client (ask_accept request) = with_request request server_accept
server_call client (ask_connect request) = with_request request (server_connect client)
server_call client (ask_close request) = with_request request (server_close client)

-- Requests one after another.
unfoldable pub server_calls : List (ℕ × Request) → Server → Server
unfolding server_call
server_calls [] s = s
server_calls ((client, request) ∷ rest) s = server_calls rest (server_call client request s).1
