-- ===== src/Frame/Xid/RoundTrip.antt =====
-- The parameters that patty_ax25_sock_send_xid encodes, decoded by frame.c.
pub mod Entries
use patty.Prelude.{
  ==_refl, All, Bool, Bool-cases, List, [], ap, append-nil, arith, bit_and, false, if◌then◌else◌,
  inl, inr, leb, length, ltb, refl, subst, sym, true, ℕ, ◌%◌, ◌*◌, ◌++◌, ◌+◌, ◌-◌, ◌/◌, ◌<◌, ◌==◌,
  ◌^◌, ◌∙◌, ◌∷◌, ◌≡◌, ◌≤◌,
}
use patty.Prelude.Bits.{and_field, and_ones}
use patty.Result.{Result, fault, map-eq-ok, ok, ◌>>◌}
use patty.Sock.Params.{Params}
use patty.Frame.Xid.{
  Entry, cleared, decode_group_body, decode_groups, decode_xid, decode_xid_group, encode_xid,
  entries_of, group_iso8885, group_params, group_size, needbytes, save_xid_param, word,
}
use patty.Frame.Xid.RoundTrip.Entries.{
  IsFlagged, IsShort, all_bytes, decode_params-all_bytes, encode_entries-all_bytes,
  length-all_bytes_le, saved,
}

-- The flags that patty_ax25_sock_send_xid sets.
abbrev pub sent_flags : ℕ
sent_flags = 2 ^ 2 + 2 ^ 3 + 2 ^ 6 + 2 ^ 8 + 2 ^ 9 + 2 ^ 10

-- The tests of `needbytes`.
high_bytes :
    (v : ℕ)
    → v < 2 ^ 32
    → (bit_and v 0xffffff00 ≡ v / 2 ^ 8 * 2 ^ 8)
      × (bit_and v 0xffff0000 ≡ v / 2 ^ 16 * 2 ^ 16)
      × (bit_and v 0xff000000 ≡ v / 2 ^ 24 * 2 ^ 24)
high_bytes v h = (
  omega (arith, and_field 8 v 0xffffff, and_ones 24 (v / 2 ^ 8)),
  omega (arith, and_field 16 v 0xffff, and_ones 16 (v / 2 ^ 16)),
  omega (arith, and_field 24 v 0xff, and_ones 8 (v / 2 ^ 24)),
)

-- A value that `needbytes` has counted the bytes of.
needbytes-holds : (v : ℕ) → v < 2 ^ 32 → (v % 2 ^ (8 * needbytes v) ≡ v) × (needbytes v ≤ 4)
unfolding needbytes
needbytes-holds v h =
    let (one, two, three) = high_bytes v h in
    elim (Bool-cases (bit_and v 0xffffff00 == 0)) [
      | inl e ↦ let small : v < 2 ^ 8 = ground (arith, one, e) in rw e (omega arith, omega arith)
      | inr e ↦ elim (Bool-cases (bit_and v 0xffff0000 == 0)) [
        | inl e' ↦
            let small : v < 2 ^ 16 = ground (arith, two, e') in
            rw (e, e') (omega arith, omega arith)
        | inr e' ↦ elim (Bool-cases (bit_and v 0xff000000 == 0)) [
          | inl e'' ↦
              let small : v < 2 ^ 24 = ground (arith, three, e'') in
              rw (e, e', e'') (omega arith, omega arith)
          | inr e'' ↦ rw (e, e', e'') (omega arith, omega arith)
        ]
      ]
    ]

-- The values of the parameters fit their fields.
pub record InFields (params : Params) : Type 0 where
  pub classes : params.classes < 2 ^ 16
  pub hdlc : params.hdlc < 2 ^ 24
  pub info_rx : params.info_rx < 2 ^ 32
  pub window_rx : params.window_rx < 2 ^ 8
  pub ack : params.ack < 2 ^ 32
  pub retry : params.retry < 2 ^ 32

-- The four bytes of a group of `n` bytes.
abbrev group_head : ℕ → List ℕ
group_head n = group_iso8885 ∷ group_params ∷ (n / 256 % 256) ∷ (n % 256) ∷ []

decode_xid_group-all_bytes :
    (entries : List Entry) (before : Params)
    → All IsShort entries
    → length (all_bytes entries) < 65536
    → decode_xid_group before
        (group_head (length (all_bytes entries)) ++ all_bytes entries)
        0
        (length (group_head (length (all_bytes entries)) ++ all_bytes entries))
      ≡ ok (saved entries cleared, group_size + length (all_bytes entries))
unfolding decode_xid_group decode_group_body
decode_xid_group-all_bytes entries before short small =
    let n = length (all_bytes entries) in
    let wire = group_head n ++ all_bytes entries in
    let room : ltb (length wire - 0) group_size ≡ false = ground arith in
    let counted : n / 256 % 256 * 256 + n % 256 ≡ n = omega (arith, small) in
    let run = decode_params-all_bytes entries (group_head n) [] n cleared short (omega arith) in
    let run' = rw (append-nil (all_bytes entries)) at run in
    rw (room, counted, run', ==_refl (4 + n)) refl

decode_xid-all_bytes :
    (entries : List Entry) (before : Params)
    → All IsShort entries
    → length (all_bytes entries) < 65536
    → decode_xid before
        (group_head (length (all_bytes entries)) ++ all_bytes entries)
        0
        (length (group_head (length (all_bytes entries)) ++ all_bytes entries))
      ≡ ok (
        saved entries cleared,
        length (group_head (length (all_bytes entries)) ++ all_bytes entries),
      )
unfolding decode_xid decode_groups
decode_xid-all_bytes entries before short small =
    rw (decode_xid_group-all_bytes entries before short small)
      (rw (more, stop, same) (ap (λ (k : ℕ). ok (saved entries cleared, k)) (omega arith)))
  where
    size : ℕ
    size = length (group_head (length (all_bytes entries)) ++ all_bytes entries)

    more : ltb 0 size ≡ true
    more = ground arith

    stop : ltb (0 + (group_size + length (all_bytes entries))) size ≡ false
    stop = ground arith

    same : (0 + (group_size + length (all_bytes entries)) == size) ≡ true
    same = ground arith

table-IsShort : (params : Params) → InFields params → All IsShort (entries_of params)
unfolding entries_of
table-IsShort params fields = (
  omega arith,
  (
    omega arith,
    (
      (needbytes-holds (word params.info_rx) (omega arith)).1,
      (
        omega arith,
        (
          (needbytes-holds (word params.ack) (omega arith)).1,
          ((needbytes-holds (word params.retry) (omega arith)).1, tt),
        ),
      ),
    ),
  ),
)

six : (params : Params) → length (entries_of params) ≡ 6
unfolding entries_of
six params = refl

table-IsFlagged : (params : Params) → All (IsFlagged sent_flags) (entries_of params)
unfolding entries_of
table-IsFlagged params = (refl, (refl, (refl, (refl, (refl, (refl, tt))))))

table-saved :
    (params : Params)
    → params.flags ≡ sent_flags
    → InFields params
    → saved (entries_of params) cleared ≡ record params { info_tx = 0; window_tx = 0 }
unfolding entries_of save_xid_param
table-saved params flags fields =
    let classes : word params.classes % 2 ^ 16 ≡ params.classes = omega (arith, fields.classes) in
    let hdlc : word params.hdlc % 2 ^ 24 ≡ params.hdlc = omega (arith, fields.hdlc) in
    let window_rx : word params.window_rx % 2 ^ 8 ≡ params.window_rx =
      omega (arith, fields.window_rx) in
    let info_rx : word params.info_rx ≡ params.info_rx = omega (arith, fields.info_rx) in
    let ack : word params.ack ≡ params.ack = omega (arith, fields.ack) in
    let retry : word params.retry ≡ params.retry = omega (arith, fields.retry) in
    rw
      (
        info_rx,
        ack,
        retry,
        classes,
        hdlc,
        window_rx,
        (needbytes-holds params.info_rx fields.info_rx).0,
        (needbytes-holds params.ack fields.ack).0,
        (needbytes-holds params.retry fields.retry).0,
        flags,
      )
      refl

-- The parameters that patty_ax25_sock_send_xid flags, with values that fit their fields, are
-- decoded again from the bytes that they are encoded in, all of which are taken; the two
-- parameters that are not sent come back as 0.
pub decode_xid-encode_xid :
    (params before : Params) (len : ℕ) (bytes : List ℕ)
    → params.flags ≡ sent_flags
    → InFields params
    → encode_xid params len ≡ ok bytes
    → decode_xid before bytes 0 (length bytes)
      ≡ ok (record params { info_tx = 0; window_tx = 0 }, length bytes)
unfolding encode_xid
decode_xid-encode_xid params before len bytes flags fields h =
    let entries = entries_of params in
    let short = table-IsShort params fields in
    let size = length-all_bytes_le entries short in
    let (body, inner, whole) = map-eq-ok _ (λ body. group_head (length body) ++ body) h in
    let (_, written) = roomy (leb group_size len) inner in
    let same =
      encode_entries-all_bytes entries params.flags group_size len body
        (subst (λ (f : ℕ). All (IsFlagged f) entries) (sym flags) (table-IsFlagged params))
        written in
    let wire : bytes ≡ group_head (length (all_bytes entries)) ++ all_bytes entries =
      sym whole ∙ ap (λ b. group_head (length b) ++ b) same in
    rw wire (
      decode_xid-all_bytes entries before short (omega (arith, size, six params))
      ∙ ap (λ p. ok (p, length (group_head (length (all_bytes entries)) ++ all_bytes entries)))
          (table-saved params flags fields))
  where
    roomy :
        (fits : Bool) {m : Result (List ℕ)} {b : List ℕ}
        → ((if fits then ok tt else fault) >> m) ≡ ok b
        → (fits ≡ true) × (m ≡ ok b)
    roomy true h = (refl, h)
    roomy false h = cc
