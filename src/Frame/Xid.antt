-- ===== src/Frame/Xid.antt =====
-- The information of XID frames: save_xid_param, decode_xid_group, encode_xid_param, needbytes and
-- patty_ax25_frame_encode_xid of frame.c.
pub mod Value
pub mod RoundTrip
pub mod Flags
mod Tests
use patty.Prelude.{
  List, [], bit_and, bit_or, if◌then◌else◌, leb, length, ltb, not, suc, zero, ℕ, ◌%◌, ◌&&◌, ◌*◌,
  ◌++◌, ◌+◌, ◌-◌, ◌/◌, ◌==◌, ◌^◌, ◌||◌, ◌∷◌,
}
use patty.Result.{Result, eio, eoverflow, err, fault, guard, ok, read, read_bytes, ◌>>=◌, ◌>>◌}
use patty.Sock.Params.{
  Params, param_ack, param_classes, param_hdlc, param_info_rx, param_info_tx, param_retry,
  param_window_rx, param_window_tx,
}

-- patty_ax25_frame_xid_group and its two constants.
abbrev pub group_size : ℕ
group_size = 4

abbrev pub group_iso8885 : ℕ
group_iso8885 = 0x82

abbrev pub group_params : ℕ
group_params = 0x80

-- `params->flags |= (1 << type)`
abbrev pub flagged : Params → ℕ → Params
flagged params kind = record params { flags = bit_or params.flags (2 ^ kind) }

-- `save_xid_param`
pub save_xid_param : Params → ℕ → ℕ → Params
save_xid_param params kind value =
    if kind == param_classes
    then flagged (record params { classes = value }) kind
    else if kind == param_hdlc
    then flagged (record params { hdlc = value }) kind
    else if kind == param_info_tx
    then flagged (record params { info_tx = value }) kind
    else if kind == param_info_rx
    then flagged (record params { info_rx = value }) kind
    else if kind == param_window_tx
    then flagged (record params { window_tx = value }) kind
    else if kind == param_window_rx
    then flagged (record params { window_rx = value }) kind
    else if kind == param_ack
    then flagged (record params { ack = value }) kind
    else if kind == param_retry
    then flagged (record params { retry = value }) kind
    else params

-- The loop over the bytes of a value, the last one first.
pub be_value : List ℕ → ℕ
be_value [] = 0
be_value (b ∷ bs) = bit_or (be_value bs) (b * 2 ^ (8 * length bs))

-- One parameter at `offset`: the parameters with it, and the offset behind it. A shift by 32 or
-- more bits is undefined.
pub decode_param : List ℕ → ℕ → Params → Result (Params × ℕ)
unfolding save_xid_param be_value
decode_param buf offset params = read buf offset >>= λ id. read buf (offset + 1) >>= λ n.
    (if leb n 4 then read_bytes buf (offset + 2) n else fault) >>= λ bytes.
    ok (save_xid_param params id (be_value bytes), offset + 2 + n)

-- The loop over the parameters of a group up to `stop`, on fuel. Each takes at least two bytes, so
-- the length of the group is enough fuel.
pub decode_params : ℕ → List ℕ → ℕ → ℕ → Params → Result (Params × ℕ)
unfolding decode_param
decode_params zero buf offset stop params = if ltb offset stop then fault else ok (params, offset)
decode_params (suc fuel) buf offset stop params =
    if ltb offset stop
    then (decode_param buf offset params >>= λ next. decode_params fuel buf next.1 stop next.0)
    else ok (params, offset)

-- What `memset` leaves.
abbrev pub cleared : Params
cleared = record {
  flags = 0;
  classes = 0;
  hdlc = 0;
  info_tx = 0;
  info_rx = 0;
  window_tx = 0;
  window_rx = 0;
  ack = 0;
  retry = 0;
}

-- A group whose length is known: it is skipped, or its parameters are decoded.
pub decode_group_body : Params → List ℕ → ℕ → ℕ → ℕ → ℕ → Result (Params × ℕ)
unfolding decode_params
decode_group_body params buf offset format kind grouplen =
    if not (format == group_iso8885) || not (kind == group_params)
    then ok (params, group_size + grouplen)
    else (decode_params grouplen buf (offset + group_size) (offset + group_size + grouplen) cleared
        >>= λ done.
            if done.1 == offset + group_size + grouplen
            then ok (done.0, group_size + grouplen)
            else err eio)

-- `decode_xid_group` at `offset` of the `len` bytes: the parameters, and how many bytes it took.
-- The caller has `offset` below `len`.
pub decode_xid_group : Params → List ℕ → ℕ → ℕ → Result (Params × ℕ)
unfolding decode_group_body
decode_xid_group params buf offset len =
    guard (not (ltb (len - offset) group_size)) eio >> read buf offset >>= λ format.
    read buf (offset + 1) >>= λ kind. read buf (offset + 2) >>= λ high.
    read buf (offset + 3) >>= λ low.
    decode_group_body params buf offset format kind (high * 256 + low)

-- The loop of patty_ax25_frame_decode_xid on fuel; a group takes at least four bytes. The result
-- has the offset that it ends with.
pub decode_groups : ℕ → Params → List ℕ → ℕ → ℕ → Result (Params × ℕ)
unfolding decode_xid_group
decode_groups zero params buf offset len = if ltb offset len then fault else ok (params, offset)
decode_groups (suc fuel) params buf offset len =
    if ltb offset len
    then (decode_xid_group params buf offset len >>= λ group.
        decode_groups fuel group.0 buf (offset + group.1) len)
    else ok (params, offset)

-- patty_ax25_frame_decode_xid: the parameters, and how many bytes it took.
pub decode_xid : Params → List ℕ → ℕ → ℕ → Result (Params × ℕ)
unfolding decode_groups
decode_xid params buf offset len = decode_groups len params buf offset len >>= λ done.
    if done.1 == len then ok (done.0, done.1 - offset) else err eio

-- The bytes of a value, the highest first.
pub be_bytes : ℕ → ℕ → List ℕ
be_bytes zero value = []
be_bytes (suc n) value = (bit_and value (0xff * 2 ^ (8 * n)) / 2 ^ (8 * n)) ∷ be_bytes n value

-- `needbytes`
pub needbytes : ℕ → ℕ
needbytes value =
    if bit_and value 0xffffff00 == 0
    then 1
    else if bit_and value 0xffff0000 == 0
    then 2
    else if bit_and value 0xff000000 == 0
    then 3
    else 4

-- A row of the table `values`.
pub record Entry : Type 0 where
  pub id : ℕ
  pub bytes : ℕ
  pub value : ℕ

-- The bytes that `encode_xid_param` writes.
pub entry_bytes : Entry → List ℕ
unfolding be_bytes
entry_bytes entry = entry.id ∷ entry.bytes ∷ be_bytes entry.bytes entry.value

-- The loop over the table from `offset` on.
pub encode_entries : List Entry → ℕ → ℕ → ℕ → Result (List ℕ)
unfolding entry_bytes
encode_entries [] flags offset len = ok []
encode_entries (entry ∷ entries) flags offset len =
    if bit_and flags (2 ^ entry.id) == 0
    then encode_entries entries flags offset len
    else (guard (leb (offset + 2 + entry.bytes) len && leb entry.bytes 4) eoverflow
        >> encode_entries entries flags (offset + 2 + entry.bytes) len
        >>= λ rest. ok (entry_bytes entry ++ rest))

-- The values are uint32_t.
abbrev pub word : ℕ → ℕ
word n = n % 2 ^ 32

-- The table of patty_ax25_frame_encode_xid.
pub entries_of : Params → List Entry
unfolding needbytes
entries_of params =
    record { id = param_classes; bytes = 2; value = word params.classes }
    ∷ record { id = param_hdlc; bytes = 3; value = word params.hdlc }
    ∷ record {
      id = param_info_rx;
      bytes = needbytes (word params.info_rx);
      value = word params.info_rx;
    }
    ∷ record { id = param_window_rx; bytes = 1; value = word params.window_rx }
    ∷ record { id = param_ack; bytes = needbytes (word params.ack); value = word params.ack }
    ∷ record { id = param_retry; bytes = needbytes (word params.retry); value = word params.retry }
    ∷ []

-- patty_ax25_frame_encode_xid into a buffer of `len` bytes, which has room for the group header.
pub encode_xid : Params → ℕ → Result (List ℕ)
unfolding encode_entries entries_of
encode_xid params len =
    (if leb group_size len then ok tt else fault)
    >> encode_entries (entries_of params) params.flags group_size len
    >>= λ body.
        ok (group_iso8885 ∷ group_params ∷ (length body / 256 % 256) ∷ (length body % 256) ∷ body)
