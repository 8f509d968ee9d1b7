-- ===== src/Callsign/RoundTrip.antt =====
-- The text of an address is read back as the address.
use patty.Prelude.{
  Bool-cases, List, [], ap, append-nil, append_assoc, arith, bit_and, false, inl, inr, length,
  length-append, ltb, not, refl, replicate, suc, sym, take, take_append, true, zero, ℕ, ◌%◌, ◌*◌,
  ◌++◌, ◌+◌, ◌-◌, ◌/◌, ◌<◌, ◌==◌, ◌∙◌, ◌∷◌, ◌≡◌, ◌≤◌,
}
use patty.Prelude.Bits.{and_0x0f, and_0x1e, and_0x7f, and_field, and_shift}
use patty.Result.{Result, einval, guard, ok, ◌>>=◌, ◌>>◌}
use patty.Frame.{Addr, callstrlen, is_char_valid}
use patty.Callsign.{
  Scan, addrstrlen, digits_text, expt, expt_loop, name_text, ntop, pton, ssid_text, stored,
}
use patty.Callsign.Text.{
  EndsScan, IsName, IsPadded, cons, ends, is_call_char, last_of, last_of-ne_dash, length-padded,
  length-shifted, nil, number_text, padded, scan-name, scan-number_text, shifted, take-enough,
}

ssid_text-number_text :
    (n o len : ℕ) → n ≤ 15 → o + 3 ≤ len → ssid_text n o len ≡ ok (number_text n)
unfolding ssid_text number_text digits_text expt expt_loop
ssid_text-number_text n o len h room = elim (Bool-cases (n == 0)) [
  | inl none_at_all ↦ rw none_at_all refl
  | inr some_at ↦ elim (Bool-cases (ltb 9 n)) [
    | inl two ↦
        let fits : ltb len (o + 1 + 2) ≡ false = ground arith in
        let high : n % 100 / 10 ≡ n / 10 = omega arith in
        let low : n % 10 / 1 ≡ n % 10 = omega arith in rw (some_at, two, fits, high, low) refl
    | inr one ↦
        let fits : ltb len (o + 1 + 1) ≡ false = ground arith in
        let digit : n % 10 / 1 ≡ n = ground arith in rw (some_at, one, fits, digit) refl
  ]
]

-- `c * 2` is read as `c` again.
unshift : (c : ℕ) → c < 0x80 → bit_and (c * 2) 0xfe / 2 ≡ c
unshift c h = and_shift 1 (c * 2) 0x7f ∙ and_0x7f (c * 2 / 2) ∙ omega arith

name_text-padded :
    (o len k : ℕ) {name : List ℕ}
    → IsName name
    → o + length name < len
    → name_text (shifted name ++ replicate k 0x40) o len ≡ ok name
unfolding name_text shifted
name_text-padded o len zero nil h = refl
name_text-padded o len (suc k) nil h = let room : (o == len) ≡ false = ground arith in rw room refl
name_text-padded o len k (cons {c} {cs} good t) h =
    let room : (o == len) ≡ false = ground arith in
    let below : c < 0x80 = ground arith in
    let no_space : (c == 0x20) ≡ false = ground arith in
    rw (room, unshift c below, no_space, name_text-padded (o + 1) len k t (omega arith)) refl

length-number_text : (n : ℕ) → length (number_text n) ≤ 3
unfolding number_text
length-number_text n = ground arith

-- The text of an address in a buffer of PATTY_AX25_ADDRSTRLEN + 1 bytes or more.
ntop-text :
    (addr : Addr) (p : IsPadded addr) (len : ℕ)
    → addrstrlen < len
    → ntop addr len ≡ ok (p.name ++ number_text (bit_and addr.ssid 0x1e / 2))
unfolding ntop
ntop-text addr p len room =
    let number = bit_and addr.ssid 0x1e / 2 in
    let small : number ≤ 15 = omega (arith, and_0x1e addr.ssid) in
    let taken =
      take-enough callstrlen (padded p.name) (omega (arith, length-padded p.name p.fits)) in
    let named_text =
      name_text-padded 0 len (callstrlen - length p.name) p.chars (omega (arith, p.fits)) in
    let numbered_text =
      ssid_text-number_text number (length p.name) len small (omega (arith, p.fits)) in
    let short : length (p.name ++ number_text number) < len =
      omega (arith, p.fits, length-append p.name (number_text number), length-number_text number) in
    let not_over : ltb len (length (p.name ++ number_text number)) ≡ false = ground arith in
    let not_full : (length (p.name ++ number_text number) == len) ≡ false = ground arith in
    rw (p.bytes, taken, named_text, numbered_text, not_over, not_full) refl

finish-EndsScan :
    (name : List ℕ) {r : Result Scan} (n : ℕ)
    → length name ≤ callstrlen
    → n ≤ 15
    → EndsScan (shifted name) n r
    → (r >>= λ s.
        guard (not (ltb 15 s.ssid)) einval
        >> (guard (not (s.last == b'-')) einval >> ok (stored s)))
      ≡ ok (record { callsign = padded name; ssid = n * 2 })
unfolding stored
finish-EndsScan name n fits small (ends state digits last no_dash) =
    let in_range : ltb 15 n ≡ false = ground arith in
    let low : bit_and n 0x0f ≡ n = ground (arith, and_0x0f n) in
    let taken = take-enough callstrlen (padded name) (omega (arith, length-padded name fits)) in
    rw (in_range, no_dash, length-shifted name, taken, low) refl

-- pton of such a text
pton-text :
    {name : List ℕ} (n : ℕ)
    → IsName name
    → 0 < length name
    → length name ≤ callstrlen
    → n ≤ 15
    → pton (name ++ number_text n) ≡ ok (record { callsign = padded name; ssid = n * 2 })
unfolding pton
pton-text {name} n chars some_char fits small =
    let text = name ++ number_text n in
    let long = length-append name (number_text n) in
    let some_text : (length text == 0) ≡ false = ground (arith, long) in
    let taken = take-enough addrstrlen text (omega (arith, long, length-number_text n)) in
    let scanned = scan-name [] 0 (number_text n) chars (omega (arith, fits)) in
    let fits' : length (shifted name) ≤ callstrlen = omega (arith, length-shifted name) in
    let ending =
      scan-number_text (shifted name) (last_of 0 name) n fits' small
        (last_of-ne_dash 0 chars refl) in
    rw (some_text, taken, scanned) (finish-EndsScan name n fits small ending)

-- For an address whose callsign is a name of one to six printable characters, none of them a space
-- or a dash, padded with spaces, the text that ntop writes into a buffer of more than
-- PATTY_AX25_ADDRSTRLEN bytes is read by pton as the same callsign, with the SSID number alone left
-- of the last byte.
pub pton-ntop :
    (addr : Addr) (len : ℕ)
    → IsPadded addr
    → addrstrlen < len
    → (ntop addr len >>= pton) ≡ ok (record addr { ssid = bit_and addr.ssid 0x1e })
pton-ntop addr len p room =
    let number = bit_and addr.ssid 0x1e / 2 in
    let small : number ≤ 15 = omega (arith, and_0x1e addr.ssid) in
    let back : number * 2 ≡ bit_and addr.ssid 0x1e = omega (arith, and_field 1 addr.ssid 0x0f) in
    rw (ntop-text addr p len room)
      (pton-text number p.chars p.some_char p.fits small ∙ rw (back, p.bytes) refl)

-- The first six bytes stored are the callsign, whatever is stored behind them.
take_stored :
    (out tail : List ℕ)
    → length out ≡ callstrlen
    → take callstrlen ((out ++ tail) ++ replicate (callstrlen - length (out ++ tail)) 0x40) ≡ out
take_stored out tail h = rw append_assoc (rw (← h) (take_append out _))

pton-name :
    {name : List ℕ}
    → IsName name
    → length name ≡ callstrlen
    → pton name ≡ ok (record { callsign = padded name; ssid = 0 })
unfolding number_text
pton-name {name} chars full =
    ap pton (sym (append-nil name))
    ∙ pton-text 0 chars (omega (arith, full)) (omega (arith, full)) (omega arith)

-- A seventh character behind a callsign of six is read and forgotten: the text is taken as that of
-- the first six.
pub pton_seventh :
    {name : List ℕ} (c : ℕ)
    → IsName name
    → length name ≡ callstrlen
    → is_call_char c ≡ true
    → pton (name ++ (c ∷ [])) ≡ pton name
unfolding pton
pton_seventh {name} c chars full good =
    let short : length (shifted name) ≡ callstrlen = length-shifted name ∙ full in
    let some_text : (length (name ++ (c ∷ [])) == 0) ≡ false =
      ground (arith, length-append name (c ∷ [])) in
    let taken =
      take-enough addrstrlen (name ++ (c ∷ [])) (omega (arith, length-append name (c ∷ []))) in
    let scanned = scan-name [] 0 (c ∷ []) chars (omega (arith, full)) in
    let room : ltb callstrlen (length (shifted name)) ≡ false = ground (arith, short) in
    let no_dash : (c == b'-') ≡ false = ground arith in
    let valid : is_char_valid c ≡ true = ground arith in
    let full_name : padded name ≡ shifted name = rw full (append-nil (shifted name)) in
    rw (some_text, taken, scanned, room, no_dash, valid)
      (rw (no_dash, take_stored (shifted name) _ short)
        (ap (λ bytes. ok (record { callsign = bytes; ssid = 0 })) (sym full_name)
          ∙ sym (pton-name chars full)))
