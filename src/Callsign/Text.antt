-- ===== src/Callsign/Text.antt =====
-- The loop of patty_ax25_pton over the text of an address.
use patty.Prelude.{
  Bool, Bool-cases, List, [], ap, append-nil, append_assoc, arith, bit_and, false, if◌then◌else◌,
  inl, inr, leb, length, length-append, length-replicate, ltb, not, refl, replicate, subst, suc,
  take, true, zero, ℕ, ◌%◌, ◌&&◌, ◌*◌, ◌++◌, ◌+◌, ◌-◌, ◌/◌, ◌<◌, ◌==◌, ◌∙◌, ◌∷◌, ◌≡◌, ◌≤◌,
}
use patty.Prelude.Bits.{and_0x7f}
use patty.Result.{Result, ok}
use patty.Frame.{Addr, callstrlen, is_char_valid}
use patty.Callsign.{AddrState, Scan, in_callsign, in_ssid, scan, scan_char}

-- A character of a callsign: printable, and neither a space nor a dash.
abbrev pub is_call_char : ℕ → Bool
is_call_char c = ltb 0x20 c && leb c 0x7e && not (c == b'-')

pub data IsName : List ℕ → Type 0 where
  nil : IsName []
  cons : {c : ℕ} {cs : List ℕ} → is_call_char c ≡ true → IsName cs → IsName (c ∷ cs)

-- The callsign bytes that stand for a name.
unfoldable pub shifted : List ℕ → List ℕ
shifted [] = []
shifted (c ∷ cs) = c * 2 ∷ shifted cs

abbrev pub padded : List ℕ → List ℕ
padded name = shifted name ++ replicate (callstrlen - length name) 0x40

-- An address as frames have it: a name of one to six characters, padded with spaces.
pub record IsPadded (addr : Addr) : Type 0 where
  pub name : List ℕ
  pub chars : IsName name
  pub some_char : 0 < length name
  pub fits : length name ≤ callstrlen
  pub bytes : addr.callsign ≡ padded name

-- The loop behind the characters of a callsign.
abbrev pub named : List ℕ → ℕ → Scan
named out last = record { state = in_callsign; out = out; digits = 0; ssid = 0; last = last }

abbrev pub last_of : ℕ → List ℕ → ℕ
last_of last [] = last
last_of last (c ∷ cs) = last_of c cs

pub length-shifted : (name : List ℕ) → length (shifted name) ≡ length name
unfolding shifted
length-shifted [] = refl
length-shifted (c ∷ cs) = ap suc (length-shifted cs)

pub length-padded : (name : List ℕ) → length name ≤ callstrlen → length (padded name) ≡ callstrlen
length-padded name h =
    let padding : List ℕ = replicate (callstrlen - length name) 0x40 in
    length-append (shifted name) padding
    ∙ ground (arith, length-shifted name, length-replicate {A = ℕ} (callstrlen - length name) 0x40)

pub last_of-ne_dash :
    (last : ℕ) {name : List ℕ}
    → IsName name
    → (last == b'-') ≡ false
    → (last_of last name == b'-') ≡ false
last_of-ne_dash last nil e = e
last_of-ne_dash last (cons {c} h t) e = last_of-ne_dash c t (ground arith)

pub scan-name :
    (out : List ℕ) (last : ℕ) {name : List ℕ} (rest : List ℕ)
    → IsName name
    → length out + length name ≤ callstrlen
    → scan (named out last) (name ++ rest)
      ≡ scan (named (out ++ shifted name) (last_of last name)) rest
unfolding scan scan_char shifted
scan-name out last rest nil h = rw append-nil refl
scan-name out last rest (cons {c} {cs} good t) h =
    let room : ltb callstrlen (length out) ≡ false = ground arith in
    let no_dash : (c == b'-') ≡ false = ground arith in
    let valid : is_char_valid c ≡ true = ground arith in
    let low : bit_and c 0x7f * 2 ≡ c * 2 = ground (arith, and_0x7f c) in
    let longer : length (out ++ (c * 2 ∷ [])) + length cs ≤ callstrlen =
      omega (arith, length-append out (c * 2 ∷ [])) in
    rw (room, no_dash, valid, low)
      (scan-name (out ++ (c * 2 ∷ [])) c rest t longer ∙ rw append_assoc refl)

-- The loop behind a whole text.
abbrev pub numbered : AddrState → List ℕ → ℕ → ℕ → ℕ → Scan
numbered state out digits n last = record {
  state = state;
  out = out;
  digits = digits;
  ssid = n;
  last = last;
}

-- The number of an SSID, and its text behind the name.
unfoldable pub number_text : ℕ → List ℕ
number_text n =
    if n == 0
    then []
    else if ltb 9 n
    then b'-' ∷ (n / 10 + b'0') ∷ (n % 10 + b'0') ∷ []
    else b'-' ∷ (n + b'0') ∷ []

pub data EndsScan (out : List ℕ) (n : ℕ) : Result Scan → Type 0 where
  ends :
      (state : AddrState) (digits last : ℕ)
      → (last == b'-') ≡ false
      → EndsScan out n (ok (numbered state out digits n last))

pub scan-number_text :
    (out : List ℕ) (last n : ℕ)
    → length out ≤ callstrlen
    → n ≤ 15
    → (last == b'-') ≡ false
    → EndsScan out n (scan (named out last) (number_text n))
unfolding scan scan_char number_text
scan-number_text out last n h small e =
    let room : ltb callstrlen (length out) ≡ false = ground arith in
    elim (Bool-cases (n == 0)) [
      | inl none_at_all ↦
          let zero_at : 0 ≡ n = ground arith in
          subst (λ m. EndsScan out m (scan (named out last) (number_text m))) zero_at
            (ends in_callsign 0 last e)
      | inr some_at ↦ elim (Bool-cases (ltb 9 n)) [
        | inl two ↦
            let high : leb b'0' (n / 10 + b'0') && leb (n / 10 + b'0') b'9' ≡ true = ground arith in
            let low : leb b'0' (n % 10 + b'0') && leb (n % 10 + b'0') b'9' ≡ true = ground arith in
            let whole : (0 * 10 + (n / 10 + b'0' - b'0')) * 10 + (n % 10 + b'0' - b'0') ≡ n =
              omega arith in
            rw (some_at, two, room, high, low, whole)
              (ends in_ssid 2 (n % 10 + b'0') (ground arith))
        | inr one ↦
            let digit : leb b'0' (n + b'0') && leb (n + b'0') b'9' ≡ true = ground arith in
            let whole : 0 * 10 + (n + b'0' - b'0') ≡ n = omega arith in
            rw (some_at, one, room, digit, whole) (ends in_ssid 1 (n + b'0') (ground arith))
      ]
    ]

pub take-enough {ℓ} : {A : Type ℓ} (n : ℕ) (xs : List A) → length xs ≤ n → take n xs ≡ xs
take-enough zero [] h = refl
take-enough (suc n) [] h = refl
take-enough zero (x ∷ xs) h = absurd (omega arith)
take-enough (suc n) (x ∷ xs) h = ap (◌∷◌ x) (take-enough n xs (omega arith))
