-- ===== src/Callsign.antt =====
-- Addresses as text, `CALL-SSID`: patty_ax25_pton and patty_ax25_ntop of ax25.c.
mod Text
pub mod RoundTrip
mod Tests
use patty.Prelude.{
  List, [], bit_and, if◌then◌else◌, leb, length, ltb, not, replicate, suc, take, zero, ℕ, ◌%◌, ◌&&◌,
  ◌*◌, ◌++◌, ◌+◌, ◌-◌, ◌/◌, ◌==◌, ◌∷◌,
}
use patty.Result.{Result, einval, eoverflow, err, fault, guard, ok, ◌>>=◌, ◌>>◌}
use patty.Frame.{Addr, callstrlen, is_char_valid}

-- PATTY_AX25_ADDRSTRLEN
abbrev pub addrstrlen : ℕ
addrstrlen = callstrlen + 3

-- `enum addr_state`
pub data AddrState : Type 0 where
  in_callsign in_ssid : AddrState

-- The variables of the loop of patty_ax25_pton: `out` holds the bytes stored from `callsign[0]` on,
-- and `last` the character read last.
pub record Scan : Type 0 where
  pub state : AddrState
  pub out : List ℕ
  pub digits : ℕ
  pub ssid : ℕ
  pub last : ℕ

abbrev pub scan_start : Scan
scan_start = record { state = in_callsign; out = []; digits = 0; ssid = 0; last = 0 }

-- One round. The test lets a seventh byte through, which is stored in the SSID behind the callsign.
unfoldable pub scan_char : AddrState → Scan → ℕ → Result Scan
scan_char in_callsign s c =
    if ltb callstrlen (length s.out)
    then err einval
    else if c == b'-'
    then ok (record s { state = in_ssid; last = c })
    else if is_char_valid c
    then ok (record s { out = s.out ++ (bit_and c 0x7f * 2 ∷ []); last = c })
    else err einval
scan_char in_ssid s c =
    if s.digits == 2
    then err einval
    else if leb b'0' c && leb c b'9'
    then ok (record s { ssid = s.ssid * 10 + (c - b'0'); digits = s.digits + 1; last = c })
    else err einval

-- The loop over the characters.
unfoldable pub scan : Scan → List ℕ → Result Scan
unfolding scan_char
scan s [] = ok s
scan s (c ∷ text) = scan_char s.state s c >>= λ t. scan t text

-- The padding, and the SSID that is stored last, over a seventh byte.
unfoldable pub stored : Scan → Addr
stored s = record {
  callsign = take callstrlen (s.out ++ replicate (callstrlen - length s.out) (0x20 * 2));
  ssid = bit_and s.ssid 0x0f * 2;
}

-- patty_ax25_pton: the address that it stores.
unfoldable pub pton : List ℕ → Result Addr
unfolding scan stored
pton text = do
  guard (not (length text == 0)) einval
  s ← scan scan_start (take addrstrlen text)
  guard (not (ltb 15 s.ssid)) einval
  guard (not (s.last == b'-')) einval
  ok (stored s)

-- The rounds of `expt` from `i` to `e`.
unfoldable pub expt_loop : ℕ → ℕ → ℕ → ℕ
expt_loop zero base ret = ret
expt_loop (suc rounds) base ret = expt_loop rounds base (ret * base)

-- `expt`
unfoldable pub expt : ℕ → ℕ → ℕ
unfolding expt_loop
expt base e = if e == 0 then 1 else expt_loop (e - 1) base base

-- The loop over the callsign, with `o` characters written: the characters that it writes.
unfoldable pub name_text : List ℕ → ℕ → ℕ → Result (List ℕ)
name_text [] o len = ok []
name_text (b ∷ bytes) o len =
    let c = bit_and b 0xfe / 2 in
    let rest = name_text bytes (o + 1) len in
    if o == len then err eoverflow else if c == 0x20 then ok [] else rest >>= λ text. ok (c ∷ text)

-- The digits `d` and later of `digits`.
unfoldable pub digits_text : ℕ → ℕ → ℕ → ℕ → List ℕ
unfolding expt
digits_text zero digits d ssid = []
digits_text (suc rounds) digits d ssid =
    let place = expt 10 (digits - d - 1) in
    (ssid % (place * 10) / place + b'0') ∷ digits_text rounds digits (d + 1) ssid

-- The SSID with its dash, behind `o` characters.
unfoldable pub ssid_text : ℕ → ℕ → ℕ → Result (List ℕ)
unfolding digits_text
ssid_text ssid o len =
    let digits = if ltb 9 ssid then 2 else 1 in
    if ssid == 0
    then ok []
    else if ltb len (o + 1 + digits)
    then err eoverflow
    else ok (b'-' ∷ digits_text digits digits 0 ssid)

-- patty_ax25_ntop: the characters that it writes before the NUL, which is stored at `dest[o]` even
-- where `o` is the length of the buffer.
unfoldable pub ntop : Addr → ℕ → Result (List ℕ)
unfolding name_text ssid_text
ntop addr len = do
  name ← name_text (take callstrlen addr.callsign) 0 len
  number ← ssid_text (bit_and addr.ssid 0x1e / 2) (length name) len
  let text = name ++ number
  guard (not (ltb len (length text))) eoverflow
  if length text == len then fault else ok text
