-- ===== src/Lib.antt =====
-- patty, an AX.25 stack outside of the kernel (src/, include/patty/).
--
-- Frames of amateur packet radio come in over a KISS line and go out over one. patty keeps a
-- socket for each link, with the sequence variables, the slots of what was sent and not yet
-- acknowledged, the negotiated parameters and three timers.
--
-- The parts and their files:
-- * KISS (src/kiss.c, src/tnc.c, include/patty/kiss.h). Kiss.antt is patty_kiss_frame_send over an
--   interface `Fd`, the system call write; Kiss/Send.antt has its reference encoding. Kiss/Tnc.antt
--   is the receiver: `Tnc` is struct _patty_kiss_tnc with the caller's array, `round` one round of the
--   loop of patty_kiss_tnc_drain, `recv_loop` patty_kiss_tnc_recv over the results of read still to
--   come. Kiss/Tnc/Frames.antt and Kiss/Tnc/Recv.antt follow a frame through it.
-- * Timers (src/timer.c). Timer.antt; times are integers.
-- * Frames (src/frame.c, include/patty/ax25.h, include/patty/ax25/frame.h). Frame.antt has the types,
--   Frame/Address.antt the address field, Frame/Control.antt the control field, the information and
--   the encoders of whole frames, Frame/Xid.antt the information of XID frames.
-- * Sockets (src/sock.c, include/patty/ax25/sock.h). Sock.antt has patty_ax25_sock, its allocation,
--   initialisation, reset and setters; Sock/Params.antt the negotiation of parameters; Sock/Window.antt
--   the slots and sequence variables; Sock/Output.antt the frames that a socket sends, as the bytes
--   that patty_ax25_if_send is called with.
--   Sock/Assembler.antt is the reassembler of segmented frames.
-- * The server (src/server.c, src/if.c). Server.antt has a `Link`: the server at one pair of
--   addresses, with the socket that its tables hold for the pair, the listening socket for the local
--   address, the outcomes of the system calls to come, and what was done to the outside.
--   Server/Action.antt has handlers as actions on a link, which keeps what was done before an error.
--   Server/Life.antt creates, saves, shuts and closes the socket, Server/Reply.antt replies to frames;
--   the handlers are in Server/Ack.antt (frame_ack, RR, RNR, REJ, SREJ), Server/Info.antt (I, UI and
--   segments), Server/Connect.antt (SABM, UA, DM, DISC, FRMR, TEST) and Server/Xid.antt, and
--   Server/Frames.antt has handle_frame. Server/Serve.antt and Server/Polls.antt have handle_sock: what
--   is read from a client and sent, and the timers. Keeps modules carry a property of the socket
--   through all handlers.
-- * The requests of clients (src/server.c). Requests.antt has `Server`, struct _patty_ax25_server with
--   the memory behind its pointers; Requests/Tables.antt the functions over its dictionaries, from
--   sock_by_fd to sock_close; Requests/Calls.antt and Requests/Connect.antt the handlers of requests, and
--   Requests/Dispatch.antt the table of them. This is the side of the server that puts sockets into the
--   tables; Server.antt is the side that finds them there.
-- * Addresses as text (src/ax25.c): Callsign.antt has patty_ax25_pton and patty_ax25_ntop.
-- * APRS-IS (src/aprs_is.c): Aprs.antt is the line reader, which makes a frame of the text of a packet
--   with pton and patty_ax25_frame_encode; a read is given by its result.
-- * Configuration (src/conf.c): Conf.antt is patty_conf_read, which splits a file into tokens in the
--   buffer that holds it; Conf/Words.antt is the same reader with texts for the ranges of the buffer.
-- * The dictionary (src/dict.c): Dict.antt. Hash.antt is src/hash.c with the hash of an address of
--   src/ax25.c, and Route.antt the table of routes (src/route.c) over both.
-- * The linked list (src/list.c): Lists.antt has its items and their links, over a memory in which the
--   k-th item is the one that the k-th call of malloc gave out; Lists/Appended.antt has the lists that
--   patty_list_append builds.
-- Prelude.antt passes on the names that all files share; Result.antt has what a C call comes back with:
-- a value, -1 with errno, or an access outside an array.
--
-- Numbers: bytes and sizes are natural numbers, and masks, shifts and the wrap of size_t are
-- written out; a char is signed where its bytes are shifted. Fuel: the loop of
-- patty_kiss_tnc_drain runs on as many rounds as there are bytes in the read buffer, and one
-- more, since each round takes a byte or drops the rest; for patty_kiss_tnc_recv the theorems
-- give the fuel that is enough. The loops of patty_ax25_frame_decode_xid have as much fuel as
-- there are bytes, of which each round takes at least two. The walk of patty_list_each has as
-- many rounds as there are items. A bucket of the dictionary has seven levels, as in the code.
--
-- Parameters: the system calls write (the record Fd, a call that succeeds has taken all its bytes)
-- and read (the list of its results); in the server, the list of the outcomes of the calls to come,
-- and the input of a client with each round. The tables of the server are taken to hold a socket
-- as sock_save leaves them, so that client_by_sock and sock_close find what they look up, and the
-- hash of an address pair to tell the pairs apart. Allocation in the KISS and socket modules is taken
-- to succeed, as in the dictionary and in the reader of configuration files; in the server it is a
-- call that may fail. A request of a client is given as it was read, and opening the descriptor of a
-- socket by its outcome; the handler of patty_conf_read is any function of the buffer, the tokens and a
-- context, which leaves the buffer as it is. The slots of a socket
-- are those of the last allocation; their capacity is the mtu, which is taken not to have changed
-- since.
--
-- Not modelled: the select loop, the end of a client and the binding of raw sockets to interfaces
-- (src/server.c), the client library, drivers and lists of interfaces, the connection and output
-- of APRS-IS, segmented writes, raw sockets, the opening of devices and files, printing and the
-- programs under bin/ and examples/.
pub mod Prelude
pub mod Kiss
pub mod Result
pub mod Frame
pub mod Sock
pub mod Server
pub mod Hash
pub mod Dict
pub mod Route
pub mod Timer
pub mod Callsign
pub mod Conf
pub mod Requests
pub mod Aprs
pub mod Lists
