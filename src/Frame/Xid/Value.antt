-- ===== src/Frame/Xid/Value.antt =====
-- The values of XID parameters as bytes, in frame.c.
use patty.Prelude.{
  ap, arith, bit_and, length, refl, suc, sym, zero, ℕ, ◌%◌, ◌*◌, ◌+◌, ◌/◌, ◌^◌, ◌∙◌, ◌≡◌, ◌≤◌,
}
use patty.Prelude.Bits.{add_or, and_0xff, and_shift}
use native.Mathlib.Nat.{div-add-mod, div-add-mod', div-div-eq-div-mul, mod-lt, one-le-pow, pow-suc}
use patty.Frame.Xid.{be_bytes, be_value}

and_byte : (k a : ℕ) → bit_and a (0xff * 2 ^ k) / 2 ^ k ≡ a / 2 ^ k % 256
and_byte k a = and_shift k a 0xff ∙ and_0xff (a / 2 ^ k)

pub length-be_bytes : (n value : ℕ) → length (be_bytes n value) ≡ n
unfolding be_bytes
length-be_bytes zero value = refl
length-be_bytes (suc n) value = ap suc (length-be_bytes n value)

-- A number modulo 256 * m, by its quotient and its remainder by m.
mod_split : (a m : ℕ) → 1 ≤ m → a / m % 256 * m + a % m ≡ a % (m * 256)
mod_split a m h =
    let q = a / m in
    let high = q / 256 in
    let low = q % 256 in
    let outer : a / (m * 256) ≡ high = sym (div-div-eq-div-mul a m 256) in
    let parts : q * m ≡ (high * 256 + low) * m = ap (λ (t : ℕ). t * m) (omega arith) in
    let whole : m * 256 * (a / (m * 256)) ≡ m * 256 * high = ap (λ (t : ℕ). m * 256 * t) outer in
    omega (arith, parts, whole, div-add-mod' a m, div-add-mod a (m * 256))

byte_pow :
    {m : ℕ} (k : ℕ) → m ≡ suc (suc (suc (suc (suc (suc (suc (suc k))))))) → 2 ^ m ≡ 2 ^ k * 256
byte_pow k h =
    ap (λ (t : ℕ). 2 ^ t) h
    ∙ omega (
      arith,
      pow-suc 2 k,
      pow-suc 2 (suc k),
      pow-suc 2 (suc (suc k)),
      pow-suc 2 (suc (suc (suc k))),
      pow-suc 2 (suc (suc (suc (suc k)))),
      pow-suc 2 (suc (suc (suc (suc (suc k))))),
      pow-suc 2 (suc (suc (suc (suc (suc (suc k)))))),
      pow-suc 2 (suc (suc (suc (suc (suc (suc (suc k))))))),
    )

-- The bytes give the value back, up to the bits that they hold.
pub be_value-be_bytes : (n value : ℕ) → be_value (be_bytes n value) ≡ value % 2 ^ (8 * n)
unfolding be_value be_bytes
be_value-be_bytes zero value = omega arith
be_value-be_bytes (suc n) value =
    let low = be_value-be_bytes n value in
    let k = 8 * n in
    let next : 2 ^ (8 * suc n) ≡ 2 ^ k * 256 = byte_pow k (omega arith) in
    rw (length-be_bytes n value, low, and_byte k value)
      (add_or k (value / 2 ^ k % 256) (value % 2 ^ k) (mod-lt value (one-le-pow k 2 (omega arith)))
        ∙ mod_split value (2 ^ k) (one-le-pow k 2 (omega arith))
        ∙ ap (λ (t : ℕ). value % t) (sym next))
