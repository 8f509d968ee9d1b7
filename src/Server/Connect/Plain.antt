-- ===== src/Server/Connect/Plain.antt =====
-- handle_ua of server.c on a link that waits for its connection, and what can be written then.
use patty.Prelude.{Bool, List, [], false, if◌then◌else◌, none, refl, subst, sym, true, ℕ, ◌∷◌, ◌≡◌}
use patty.Result.{ebadf, err, ok}
use patty.Frame.{Frame}
use patty.Sock.{Mode, State, dm, init_bufs, is_dm, pending_connect}
use patty.Server.{Link, answered}
use patty.Server.Action.{call, emit, fail, link, modify, watch, ◌>>=◌, ◌>>◌}
use patty.Server.Action.Silent.{called-none}
use patty.Server.Serve.{sock_write, write_kind}
use patty.Server.Life.{sock_save}
use patty.Server.Reply.{addr_match, reply_dm, respond_connect}
use patty.Server.Connect.{handle_ua, linked, realloc_bufs, ua_by_state}

-- The link after the UA frame that establishes it.
abbrev pub opened : Link → Link
opened l = record l {
  sock = linked (init_bufs l.sock);
  live = true;
  watched = true;
  events = answered none ∷ l.events;
}

by_state :
    (frame : Frame) (state : State) (l : Link)
    → state ≡ pending_connect
    → l.calls ≡ []
    → ua_by_state frame state l ≡ (ok tt, opened l)
unfolding ua_by_state realloc_bufs linked sock_save respond_connect ◌>>=◌ ◌>>◌ call modify watch
    emit
by_state frame state l is_state calls =
    let first = called-none l.calls l calls in
    let last =
      called-none l.calls
        (record l { sock = linked (init_bufs l.sock); live = true; watched = true }) calls in
    subst (λ s. ua_by_state frame s l ≡ (ok tt, opened l)) (sym is_state) (rw (first, last) refl)

-- A UA frame for a station of the interface, on a link that waits for its connection and whose
-- system calls succeed: the client is told that it is connected, and the socket is established, with
-- the slots of its mode.
handle_ua-opened :
    (frame : Frame) (l : Link)
    → addr_match l.iface frame.dest ≡ true
    → l.live ≡ true
    → l.sock.state ≡ pending_connect
    → l.calls ≡ []
    → handle_ua frame l ≡ (ok tt, opened l)
unfolding handle_ua ◌>>=◌ link
handle_ua-opened frame l matches live state calls = rw matches (choose l.live live)
  where
    choose :
        (on : Bool)
        → on ≡ true
        → (if on then ua_by_state frame l.sock.state else reply_dm frame 1) l ≡ (ok tt, opened l)
    choose true e = by_state frame l.sock.state l state calls
    choose false e = cc

-- A UA frame for a station of the interface, on a link that waits for its connection with its
-- socket in mode DM, and whose system calls succeed: the client is told that it is connected, the
-- socket is established and still in mode DM, and the write that follows, of whatever bytes, fails
-- with EBADF.
pub handle_ua-ebadf :
    (frame : Frame) (buf : List ℕ) (l : Link)
    → addr_match l.iface frame.dest ≡ true
    → l.live ≡ true
    → l.sock.state ≡ pending_connect
    → l.calls ≡ []
    → l.sock.mode ≡ dm
    → (handle_ua frame >> sock_write buf) l ≡ (err ebadf, opened l)
unfolding ◌>>◌ ◌>>=◌ link sock_write fail linked init_bufs
handle_ua-ebadf frame buf l matches live state calls mode =
    rw (handle_ua-opened frame l matches live state calls) (not_sent l.sock.mode mode)
  where
    not_sent :
        (m : Mode)
        → m ≡ dm
        → (if is_dm m then fail ebadf else write_kind l.sock.kind buf) (opened l)
          ≡ (err ebadf, opened l)
    not_sent dm e = refl
    not_sent _ e = cc
