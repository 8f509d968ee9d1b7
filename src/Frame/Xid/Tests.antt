-- ===== src/Frame/Xid/Tests.antt =====
-- The round trip of XID parameters at those of a socket.
use patty.Prelude.{List, [], arith, false, length, refl, true, ℕ, ◌∷◌, ◌≡◌}
use patty.Prelude.Int.{pos}
use patty.Result.{ok}
use patty.Sock.Params.{Params, apply_limits, negotiate}
use patty.Frame.Xid.{
  be_bytes, cleared, decode_xid, encode_entries, encode_xid, entries_of, entry_bytes, needbytes,
}
use patty.Timer.{Timer}
use patty.Frame.{Addr, v2_2}
use patty.Sock.{Sock, dm, pending_connect, stream, wait}
use patty.Frame.Xid.Flags.{negotiate-decode_xid}
use patty.Frame.Xid.RoundTrip.{InFields, decode_xid-encode_xid, sent_flags}

abbrev offered : Params
offered = record {
  flags = sent_flags;
  classes = 0x2100;
  hdlc = 0x86a822;
  info_tx = 0;
  info_rx = 12288;
  window_tx = 0;
  window_rx = 127;
  ack = 3000;
  retry = 10;
}

abbrev wire : List ℕ
wire =
    0x82 ∷ 0x80 ∷ 0 ∷ 23 ∷ 2 ∷ 2 ∷ 0x21 ∷ 0 ∷ 3 ∷ 3 ∷ 0x86 ∷ 0xa8 ∷ 0x22 ∷ 6 ∷ 2 ∷ 0x30 ∷ 0 ∷ 8 ∷ 1
    ∷ 127 ∷ 9 ∷ 2 ∷ 11 ∷ 184 ∷ 10 ∷ 1 ∷ 10 ∷ []

encodes : encode_xid offered 256 ≡ ok wire
unfolding encode_xid encode_entries entries_of entry_bytes be_bytes needbytes
encodes = refl

offered-InFields : InFields offered
offered-InFields = record {
  classes = omega arith;
  hdlc = omega arith;
  info_rx = omega arith;
  window_rx = omega arith;
  ack = omega arith;
  retry = omega arith;
}

decode_xid-encode_xid_example : decode_xid cleared wire 0 (length wire) ≡ ok (offered, length wire)
decode_xid-encode_xid_example =
    decode_xid-encode_xid offered cleared 256 wire refl offered-InFields encodes

abbrev idle : Timer
idle = record { ms = 3000; t = record { tv_sec = pos 0; tv_nsec = pos 0 }; running = false }

abbrev nobody : Addr
nobody = record { callsign = []; ssid = 0 }

abbrev asking : Sock
asking = record {
  proto = 0xf0;
  kind = stream;
  version = v2_2;
  state = pending_connect;
  mode = dm;
  flow = wait;
  has_iface = true;
  local = nobody;
  remote = nobody;
  repeaters = [];
  hops = 0;
  tx_buf = [];
  tx_slots = [];
  flags_classes = 0;
  flags_hdlc = 0;
  n_maxlen_tx = 1536;
  n_maxlen_rx = 1536;
  n_window_tx = 127;
  n_window_rx = 127;
  n_ack = 3000;
  n_retry = 10;
  timer_t1 = idle;
  timer_t2 = idle;
  timer_t3 = idle;
  vs = 0;
  vr = 0;
  va = 0;
  retries = 10;
  rx_pending = 0;
}

decodes : decode_xid cleared wire 0 (length wire) ≡ ok (offered, length wire)
decodes = decode_xid-encode_xid offered cleared 256 wire refl offered-InFields encodes

negotiate-decode_xid_example : negotiate asking offered ≡ (apply_limits asking offered, ok offered)
negotiate-decode_xid_example =
    negotiate-decode_xid asking cleared offered wire 0 (length wire) (length wire) refl decodes
