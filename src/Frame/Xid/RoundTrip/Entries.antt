-- ===== src/Frame/Xid/RoundTrip/Entries.antt =====
-- A run of XID parameters, written and read by frame.c.
use patty.Prelude.{
  All, List, [], ap, append_assoc, arith, bit_and, false, leb, length, length-append, ltb, refl,
  set, suc, sym, true, zero, ℕ, ◌%◌, ◌*◌, ◌++◌, ◌+◌, ◌==◌, ◌^◌, ◌∙◌, ◌∷◌, ◌≡◌, ◌≤◌,
}
use patty.Result.{
  eoverflow, guard-eq-ok, map-eq-ok, ok, ok-injective, read_append, read_at, read_bytes,
  read_bytes_append,
}
use patty.Sock.Params.{Params}
use patty.Frame.Xid.{
  Entry, be_bytes, decode_param, decode_params, encode_entries, entry_bytes, save_xid_param,
}
use patty.Frame.Xid.Value.{be_value-be_bytes, length-be_bytes}

-- The bytes of a run, one parameter after the other.
abbrev pub all_bytes : List Entry → List ℕ
all_bytes [] = []
all_bytes (entry ∷ entries) = entry_bytes entry ++ all_bytes entries

-- What decoding a run leaves: the bits of each value that its bytes hold are saved in turn.
abbrev pub saved : List Entry → Params → Params
saved [] params = params
saved (entry ∷ entries) params =
    saved entries (save_xid_param params entry.id (entry.value % 2 ^ (8 * entry.bytes)))

abbrev pub IsShort : Entry → Type 0
IsShort entry = entry.bytes ≤ 4

length-entry_bytes : (entry : Entry) → length (entry_bytes entry) ≡ 2 + entry.bytes
unfolding entry_bytes
length-entry_bytes entry = omega (arith, length-be_bytes entry.bytes entry.value)

-- The bytes of one value behind the two bytes of its header.
value_bytes :
    (before rest : List ℕ) (entry : Entry)
    → read_bytes (before ++ (entry_bytes entry ++ rest)) (length before + 2) entry.bytes
      ≡ ok (be_bytes entry.bytes entry.value)
unfolding entry_bytes
value_bytes before rest entry =
    let head : List ℕ = entry.id ∷ entry.bytes ∷ [] in
    let bytes = be_bytes entry.bytes entry.value in
    let whole = append_assoc before head (bytes ++ rest) in
    let at : length before + 2 ≡ length (before ++ head) =
      omega (arith, length-append before head) in
    ap (λ b. read_bytes b (length before + 2) entry.bytes) (sym whole)
    ∙ ap (λ k. read_bytes ((before ++ head) ++ (bytes ++ rest)) k entry.bytes) at
    ∙ ap (read_bytes ((before ++ head) ++ (bytes ++ rest)) (length (before ++ head)))
        (sym (length-be_bytes entry.bytes entry.value))
    ∙ read_bytes_append (before ++ head) bytes rest

decode_param-entry_bytes :
    (before rest : List ℕ) (entry : Entry) (params : Params)
    → IsShort entry
    → decode_param (before ++ (entry_bytes entry ++ rest)) (length before) params
      ≡ ok (
        save_xid_param params entry.id (entry.value % 2 ^ (8 * entry.bytes)),
        length before + 2 + entry.bytes,
      )
unfolding decode_param entry_bytes
decode_param-entry_bytes before rest entry params short =
    let bytes = be_bytes entry.bytes entry.value in
    let tail = entry.id ∷ entry.bytes ∷ (bytes ++ rest) in
    let first = read_append before entry.id (entry.bytes ∷ (bytes ++ rest)) in
    let second = read_at before 1 tail in
    let four : leb entry.bytes 4 ≡ true = ground (arith, short) in
    let value = value_bytes before rest entry in
    rw (first, second, four, value, be_value-be_bytes entry.bytes entry.value) refl

pub decode_params-all_bytes :
    (entries : List Entry) (before rest : List ℕ) (fuel : ℕ) (params : Params)
    → All IsShort entries
    → length (all_bytes entries) ≤ fuel
    → decode_params fuel
        (before ++ (all_bytes entries ++ rest))
        (length before)
        (length before + length (all_bytes entries))
        params
      ≡ ok (saved entries params, length before + length (all_bytes entries))
unfolding decode_params
decode_params-all_bytes [] before rest zero params short enough = ground arith
decode_params-all_bytes [] before rest (suc fuel) params short enough = ground arith
decode_params-all_bytes (entry ∷ entries) before rest zero params short enough = absurd (
    omega (
      arith,
      enough,
      length-append (entry_bytes entry) (all_bytes entries),
      length-entry_bytes entry,
    ))
decode_params-all_bytes (entry ∷ entries) before rest (suc fuel) params (short, shorts) enough =
    let here = entry_bytes entry in
    let others = all_bytes entries in
    let size = length-append here others in
    let two = length-entry_bytes entry in
    let next = before ++ here in
    let next_size = length-append before here in
    let stop : length before + length (here ++ others) ≡ length next + length others =
      omega (arith, size, next_size) in
    let at : length before + 2 + entry.bytes ≡ length next = omega (arith, two, next_size) in
    let params' = save_xid_param params entry.id (entry.value % 2 ^ (8 * entry.bytes)) in
    let more : ltb (length before) (length before + length (here ++ others)) ≡ true =
      ground (arith, size, two) in
    let ih =
      decode_params-all_bytes entries next rest fuel params' shorts
        (omega (arith, size, two, enough)) in
    rw
      (
        append_assoc here others rest,
        more,
        decode_param-entry_bytes before (others ++ rest) entry params short,
      )
      (ap
          (λ b.
            decode_params fuel b (length before + 2 + entry.bytes)
              (length before + length (here ++ others)) params')
          (sym (append_assoc before here (others ++ rest)))
        ∙ ap
            (λ k.
              decode_params fuel (next ++ (others ++ rest)) k
                (length before + length (here ++ others)) params')
            at
        ∙ ap (λ k. decode_params fuel (next ++ (others ++ rest)) (length next) k params') stop
        ∙ ih
        ∙ ap (λ (k : ℕ). ok (saved entries params', k)) (sym stop))

-- The flags have the bit of an entry.
abbrev pub IsFlagged : ℕ → Entry → Type 0
IsFlagged flags entry = (bit_and flags (2 ^ entry.id) == 0) ≡ false

pub encode_entries-all_bytes :
    (entries : List Entry) (flags offset len : ℕ) (bytes : List ℕ)
    → All (IsFlagged flags) entries
    → encode_entries entries flags offset len ≡ ok bytes
    → bytes ≡ all_bytes entries
unfolding encode_entries
encode_entries-all_bytes [] flags offset len bytes set h = sym (ok-injective h)
encode_entries-all_bytes (entry ∷ entries) flags offset len bytes (set, sets) h =
    let (rest, inner, whole) = map-eq-ok _ (λ rest. entry_bytes entry ++ rest) (rw set at h) in
    let (_, written) = guard-eq-ok _ eoverflow _ inner in
    sym whole
    ∙ ap (λ l. entry_bytes entry ++ l)
        (encode_entries-all_bytes entries flags (offset + 2 + entry.bytes) len rest sets written)

pub length-all_bytes_le :
    (entries : List Entry) → All IsShort entries → length (all_bytes entries) ≤ 6 * length entries
length-all_bytes_le [] short = omega arith
length-all_bytes_le (entry ∷ entries) (short, shorts) = omega (
  arith,
  short,
  length-append (entry_bytes entry) (all_bytes entries),
  length-entry_bytes entry,
  length-all_bytes_le entries shorts,
)
