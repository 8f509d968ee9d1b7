-- ===== src/Callsign/Tests.antt =====
-- Tests of the texts of addresses.
use patty.Prelude.{List, [], arith, refl, replicate, ℕ, ◌∷◌, ◌≡◌}
use patty.Result.{einval, eoverflow, err, fault, ok, ◌>>=◌}
use patty.Frame.{Addr}
use patty.Callsign.{ntop, pton}
use patty.Callsign.Text.{IsName, IsPadded, cons, nil, shifted}
use patty.Callsign.RoundTrip.{pton-ntop}

-- K7A, as in frames, with number 12 and the command bit.
abbrev k7a : Addr
k7a = record { callsign = 0x96 ∷ 0x6e ∷ 0x82 ∷ 0x40 ∷ 0x40 ∷ 0x40 ∷ []; ssid = 0xf8 }

k7a-IsPadded : IsPadded k7a
unfolding shifted
k7a-IsPadded = record {
  name = b'K' ∷ b'7' ∷ b'A' ∷ [];
  chars = cons refl (cons refl (cons refl nil));
  some_char = omega arith;
  fits = omega arith;
  bytes = refl;
}

ntop-k7a : ntop k7a 10 ≡ ok (b'K' ∷ b'7' ∷ b'A' ∷ b'-' ∷ b'1' ∷ b'2' ∷ [])
unfolding ntop
ntop-k7a = refl

-- The NUL is stored behind a buffer that the text fills.
ntop_full : ntop k7a 6 ≡ fault
unfolding ntop
ntop_full = refl

ntop_short : ntop k7a 5 ≡ err eoverflow
unfolding ntop
ntop_short = refl

pton_dash : pton (b'K' ∷ b'-' ∷ []) ≡ err einval
unfolding pton
pton_dash = refl

pton_large : pton (b'K' ∷ b'-' ∷ b'1' ∷ b'6' ∷ []) ≡ err einval
unfolding pton
pton_large = refl

pton_no_name : pton (b'-' ∷ b'5' ∷ []) ≡ ok (record { callsign = replicate 6 0x40; ssid = 10 })
unfolding pton
pton_no_name = refl

pton-ntop_example : (ntop k7a 10 >>= pton) ≡ ok (record k7a { ssid = 24 })
pton-ntop_example = pton-ntop k7a 10 k7a-IsPadded (omega arith)

abbrev kd7lxl : List ℕ
kd7lxl = b'K' ∷ b'D' ∷ b'7' ∷ b'L' ∷ b'X' ∷ b'L' ∷ []

kd7lxl-IsName : IsName kd7lxl
kd7lxl-IsName = cons refl (cons refl (cons refl (cons refl (cons refl (cons refl nil)))))
