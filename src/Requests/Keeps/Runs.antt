-- ===== src/Requests/Keeps/Runs.antt =====
-- Requests one after another.
use patty.Prelude.{Bool-cases, List, Option, [], inl, inr, none, some, ℕ, ◌||◌, ◌∷◌}
use patty.Sock.{init_bufs}
use patty.Sock.Params.{param_info_tx, param_window_tx}
use patty.Requests.{Server}
use patty.Requests.Dispatch.{
  Request, ask_accept, ask_bind, ask_close, ask_connect, ask_listen, ask_params, ask_socket,
  server_call, server_calls,
}
use patty.Requests.Calls.{
  Handler, SockParams, flagged, next_call, set_params, setsockopt_params, with_request,
}
use patty.Requests.Keeps.{Consistent}
use patty.Requests.Keeps.Opening.{server_socket-Consistent}
use patty.Requests.Keeps.Handlers.{
  put-Consistent, server_accept-Consistent, server_bind-Consistent, server_close-Consistent,
  server_connect-Consistent, server_listen-Consistent, with_sock-Consistent,
}

setsockopt_params-Consistent :
    (request : ℕ × SockParams) (s : Server)
    → Consistent s
    → Consistent (setsockopt_params request s).1
unfolding setsockopt_params
setsockopt_params-Consistent (fd, params) s c = with_sock-Consistent fd _ s c λ p obj m.
    let now = record obj { sock = set_params params obj.sock } in
    let wrote = put-Consistent s p now m c in
    let made = put-Consistent s p (record now { sock = init_bufs now.sock }) m c in
    elim (Bool-cases (flagged params param_info_tx || flagged params param_window_tx)) [
      | inr e ↦ rw e wrote
      | inl e ↦ elim (Bool-cases (next_call s.calls).0) [
        | inl k ↦ rw (e, k) (record { socks = made.socks; unused = made.unused })
        | inr k ↦ rw (e, k) (record { socks = wrote.socks; unused = wrote.unused })
      ]
    ]

with_request-Consistent :
    {A : Type 0} (request : Option A) (f : A → Handler) (s : Server)
    → Consistent s
    → ((a : A) → Consistent (f a s).1)
    → Consistent (with_request request f s).1
with_request-Consistent none f s c h = c
with_request-Consistent (some a) f s c h = h a

server_call-Consistent :
    (client : ℕ) (request : Request) (s : Server)
    → Consistent s
    → Consistent (server_call client request s).1
unfolding server_call
server_call-Consistent client (ask_socket opened r) s c =
    with_request-Consistent r _ s c λ a. server_socket-Consistent client opened a s c
server_call-Consistent client (ask_params r) s c =
    with_request-Consistent r _ s c λ a. setsockopt_params-Consistent a s c
server_call-Consistent client (ask_bind r) s c =
    with_request-Consistent r _ s c λ a. server_bind-Consistent a s c
server_call-Consistent client (ask_listen r) s c =
    with_request-Consistent r _ s c λ a. server_listen-Consistent a s c
server_call-Consistent client (ask_accept r) s c =
    with_request-Consistent r _ s c λ a. server_accept-Consistent a s c
server_call-Consistent client (ask_connect r) s c =
    with_request-Consistent r _ s c λ a. server_connect-Consistent client a s c
server_call-Consistent client (ask_close r) s c =
    with_request-Consistent r _ s c λ a. server_close-Consistent client a s c

-- Whatever requests come from whichever clients, with whatever descriptors, and whichever calls fail:
-- in the table of sockets by descriptor each pointer is NULL or leads to a socket that is still in
-- memory and has that descriptor, so that no request reaches a socket that has been closed.
pub server_calls-Consistent :
    (requests : List (ℕ × Request)) (s : Server)
    → Consistent s
    → Consistent (server_calls requests s)
unfolding server_calls
server_calls-Consistent [] s c = c
server_calls-Consistent ((client, request) ∷ rest) s c =
    server_calls-Consistent rest (server_call client request s).1
      (server_call-Consistent client request s c)
