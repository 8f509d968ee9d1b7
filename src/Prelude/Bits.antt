-- ===== src/Prelude/Bits.antt =====
-- Masks and shifts as arithmetic: `&` with a mask takes a remainder, `|` of disjoint fields adds.
use Prim.Native.Nat.{
  ℕ, zero, suc, ◌+◌, ◌-◌, ◌*◌, ◌/◌, ◌%◌, ◌^◌, ◌≤◌, ◌<◌, min, max, bit_and, bit_or, digits,
  bit_and-bitwise, bit_or-bitwise,
}
use mathlib.Core.Path.{◌≡◌, refl, sym, ◌∙◌, ap}
use native.Mathlib.Omega.{arith}
use patty.Prelude.Tests.{if◌then◌else◌}
use native.Mathlib.Nat.{pow-suc, one-le-pow, div-add-mod, div-div-eq-div-mul, mul-div_cancel}
use mathlib.Core.Bool.{Bool, true, false}

-- Over a small range a Boolean test is checked value by value.
pub all_below : ℕ → (ℕ → Bool) → Bool
all_below zero test = true
all_below (suc n) test = if test n then all_below n test else false

pub all_below_sound :
    (n : ℕ) (test : ℕ → Bool) (x : ℕ) → all_below n test ≡ true → x < n → test x ≡ true
unfolding all_below
all_below_sound zero test x h lt = absurd (omega arith)
all_below_sound (suc n) test x h lt = ground (arith, all_below_sound n test x)

module _ (op : ℕ → ℕ → ℕ) (base : ℕ → ℕ) where
  -- Fuel beyond the number itself is not used.
  digits_enough : (n m a b : ℕ) → a ≤ n → a ≤ m → digits base op n a b ≡ digits base op m a b
  digits_enough zero zero a b p q = refl
  digits_enough zero (suc m) zero b p q = refl
  digits_enough zero (suc m) (suc a) b p q = absurd (omega arith)
  digits_enough (suc n) zero zero b p q = refl
  digits_enough (suc n) zero (suc a) b p q = absurd (omega arith)
  digits_enough (suc n) (suc m) zero b p q = refl
  digits_enough (suc n) (suc m) (suc a) b p q =
      omega (arith, digits_enough n m (suc a / 2) (b / 2) (omega arith) (omega arith))

zero-and : (b : ℕ) → bit_and 0 b ≡ 0
zero-and b = bit_and-bitwise 0 b

zero-or : (b : ℕ) → bit_or 0 b ≡ b
zero-or b = bit_or-bitwise 0 b

-- The lowest binary digit, and the rest.
pub and_step : (a b : ℕ) → bit_and a b ≡ 2 * bit_and (a / 2) (b / 2) + min (a % 2) (b % 2)
and_step zero b = omega (arith, zero-and b, zero-and (b / 2))
and_step (suc a) b = omega (
  arith,
  bit_and-bitwise (suc a) b,
  bit_and-bitwise (suc a / 2) (b / 2),
  digits_enough min (λ _. 0) a (suc a / 2) (suc a / 2) (b / 2) (omega arith) (omega arith),
)

pub or_step : (a b : ℕ) → bit_or a b ≡ 2 * bit_or (a / 2) (b / 2) + max (a % 2) (b % 2)
or_step zero b = omega (arith, zero-or b, zero-or (b / 2))
or_step (suc a) b = omega (
  arith,
  bit_or-bitwise (suc a) b,
  bit_or-bitwise (suc a / 2) (b / 2),
  digits_enough max (λ x. x) a (suc a / 2) (suc a / 2) (b / 2) (omega arith) (omega arith),
)

and_zero_below : (n a : ℕ) → a ≤ n → bit_and a 0 ≡ 0
and_zero_below n zero h = refl
and_zero_below zero (suc a) h = absurd (omega arith)
and_zero_below (suc n) (suc a) h =
    omega (arith, and_step (suc a) 0, and_zero_below n (suc a / 2) (omega arith))

pub and-zero : (a : ℕ) → bit_and a 0 ≡ 0
and-zero a = and_zero_below a a (omega arith)

or_zero_below : (n a : ℕ) → a ≤ n → bit_or a 0 ≡ a
or_zero_below n zero h = refl
or_zero_below zero (suc a) h = absurd (omega arith)
or_zero_below (suc n) (suc a) h =
    omega (arith, or_step (suc a) 0, or_zero_below n (suc a / 2) (omega arith))

pub or-zero : (a : ℕ) → bit_or a 0 ≡ a
or-zero a = or_zero_below a a (omega arith)

-- `(hi << k) | lo` where `lo` fits `k` bits.
pub or_add : (k hi lo : ℕ) → lo < 2 ^ k → bit_or (hi * 2 ^ k) lo ≡ hi * 2 ^ k + lo
or_add zero hi lo h = ground (arith, or-zero hi)
or_add (suc k) hi lo h = ground (
  arith,
  or_step (hi * 2 ^ suc k) lo,
  twice hi,
  pow-suc 2 k,
  or_add k hi (lo / 2) (omega (arith, pow-suc 2 k)),
)
  where
    twice : (q : ℕ) → q * 2 ^ suc k ≡ 2 * (q * 2 ^ k)
    twice q = omega (arith, ap (λ (t : ℕ). q * t) (pow-suc 2 k))

-- The masks of the source, at every word.
pub and_0x01 : (a : ℕ) → bit_and a 0x01 ≡ a % 2
and_0x01 a = omega (arith, and_step a 1, and-zero (a / 2))

pub and_0x03 : (a : ℕ) → bit_and a 0x03 ≡ a % 4
and_0x03 a = omega (arith, and_step a 3, and_0x01 (a / 2))

pub and_0x07 : (a : ℕ) → bit_and a 0x07 ≡ a % 8
and_0x07 a = omega (arith, and_step a 7, and_0x03 (a / 2))

pub and_0x0f : (a : ℕ) → bit_and a 0x0f ≡ a % 16
and_0x0f a = omega (arith, and_step a 0x0f, and_0x07 (a / 2))

and_0x3f : (a : ℕ) → bit_and a 0x3f ≡ a % 64
and_0x3f a = omega (arith, and_step a 0x3f, and_step (a / 2) 0x1f, and_0x0f (a / 2 / 2))

pub and_0x7f : (a : ℕ) → bit_and a 0x7f ≡ a % 128
and_0x7f a = omega (arith, and_step a 0x7f, and_0x3f (a / 2))

pub and_0xff : (a : ℕ) → bit_and a 0xff ≡ a % 256
and_0xff a = omega (arith, and_step a 0xff, and_0x7f (a / 2))

-- A mask whose lowest bit is clear looks at the half.
and_double : (a m : ℕ) → bit_and a (2 * m) ≡ 2 * bit_and (a / 2) m
and_double a m =
    let e : 2 * m / 2 ≡ m = omega arith in omega (arith, and_step a (2 * m), ap (bit_and (a / 2)) e)

-- `a & (m << k)` is a field of `a`.
pub and_field : (k a m : ℕ) → bit_and a (m * 2 ^ k) ≡ bit_and (a / 2 ^ k) m * 2 ^ k
and_field zero a m =
    let e : a / 2 ^ 0 ≡ a = omega arith in
    let e' : m * 2 ^ 0 ≡ m = omega arith in
    ap (bit_and a) e' ∙ omega (arith, ap (λ (t : ℕ). bit_and t m) e)
and_field (suc k) a m =
    ap (bit_and a) (twice m)
    ∙ and_double a (m * 2 ^ k)
    ∙ ap (λ (t : ℕ). 2 * t) (and_field k (a / 2) m)
    ∙ ap (λ (t : ℕ). 2 * (bit_and t m * 2 ^ k)) halves
    ∙ sym (twice _)
  where
    twice : (q : ℕ) → q * 2 ^ suc k ≡ 2 * (q * 2 ^ k)
    twice q = omega (arith, ap (λ (t : ℕ). q * t) (pow-suc 2 k))

    halves : a / 2 / 2 ^ k ≡ a / 2 ^ suc k
    halves = div-div-eq-div-mul a 2 (2 ^ k) ∙ ap (λ (t : ℕ). a / t) (omega (arith, pow-suc 2 k))

-- `(a & (m << k)) >> k`.
pub and_shift : (k a m : ℕ) → bit_and a (m * 2 ^ k) / 2 ^ k ≡ bit_and (a / 2 ^ k) m
and_shift k a m =
    rw and_field (mul-div_cancel (bit_and (a / 2 ^ k) m) (one-le-pow k 2 (omega arith)))

-- The field extractions of frame.c and ax25.h; each mask is `m << k`.
pub and_0x0e : (a : ℕ) → bit_and a 0x0e / 2 ≡ a / 2 % 8
and_0x0e a = omega (arith, and_shift 1 a 7, and_0x07 (a / 2))

pub and_0x1e : (a : ℕ) → bit_and a 0x1e / 2 ≡ a / 2 % 16
and_0x1e a = omega (arith, and_shift 1 a 0x0f, and_0x0f (a / 2))

pub and_0x7e : (a : ℕ) → bit_and a 0x7e / 2 ≡ a / 2 % 64
and_0x7e a = omega (arith, and_shift 1 a 0x3f, and_0x3f (a / 2))

pub and_0x10 : (a : ℕ) → bit_and a 0x10 / 16 ≡ a / 16 % 2
and_0x10 a = omega (arith, and_shift 4 a 1, and_0x01 (a / 16))

pub and_0xe0 : (a : ℕ) → bit_and a 0xe0 / 32 ≡ a / 32 % 8
and_0xe0 a = omega (arith, and_shift 5 a 7, and_0x07 (a / 32))

pub and_0x0100 : (a : ℕ) → bit_and a 0x0100 / 256 ≡ a / 256 % 2
and_0x0100 a = omega (arith, and_shift 8 a 1, and_0x01 (a / 256))

pub and_0x7e00 : (a : ℕ) → bit_and a 0x7e00 / 512 ≡ a / 512 % 64
and_0x7e00 a = omega (arith, and_shift 9 a 0x3f, and_0x3f (a / 512))

pub and_0xff00 : (a : ℕ) → bit_and a 0xff00 / 256 ≡ a / 256 % 256
and_0xff00 a = omega (arith, and_shift 8 a 0xff, and_0xff (a / 256))

pub and_0xf0 : (a : ℕ) → bit_and a 0xf0 / 16 ≡ a / 16 % 16
and_0xf0 a = omega (arith, and_shift 4 a 0x0f, and_0x0f (a / 16))

-- `lo | (hi << k)` where `lo` fits `k` bits.
pub add_or : (k hi lo : ℕ) → lo < 2 ^ k → bit_or lo (hi * 2 ^ k) ≡ hi * 2 ^ k + lo
add_or zero hi lo h = let e : lo ≡ 0 = omega arith in rw e (zero-or (hi * 2 ^ 0) ∙ omega arith)
add_or (suc k) hi lo h = ground (
  arith,
  or_step lo (hi * 2 ^ suc k),
  twice hi,
  pow-suc 2 k,
  add_or k hi (lo / 2) (omega (arith, pow-suc 2 k)),
)
  where
    twice : (q : ℕ) → q * 2 ^ suc k ≡ 2 * (q * 2 ^ k)
    twice q = omega (arith, ap (λ (t : ℕ). q * t) (pow-suc 2 k))

-- A bit between two fields: `(a << (k + 1) | lo) | f << k` where `lo` fits `k` bits.
pub mid_or :
    (k a f lo : ℕ)
    → lo < 2 ^ k
    → f < 2
    → bit_or (a * 2 ^ suc k + lo) (f * 2 ^ k) ≡ a * 2 ^ suc k + f * 2 ^ k + lo
mid_or zero a f lo h g =
    let e : (a * 2 ^ 1 + lo) / 2 ≡ a = omega arith in
    let e' : f * 2 ^ 0 / 2 ≡ 0 = omega arith in
    or_step (a * 2 ^ 1 + lo) (f * 2 ^ 0) ∙ rw (e, e', or-zero a) (omega arith)
mid_or (suc k) a f lo h g =
    let e : (a * 2 ^ suc (suc k) + lo) / 2 ≡ a * 2 ^ suc k + lo / 2 =
      omega (arith, twice a (suc k)) in
    let e' : f * 2 ^ suc k / 2 ≡ f * 2 ^ k = omega (arith, twice f k) in
    let rest = mid_or k a f (lo / 2) (omega (arith, pow-suc 2 k)) g in
    or_step (a * 2 ^ suc (suc k) + lo) (f * 2 ^ suc k)
    ∙ rw (e, e', rest) (omega (arith, twice a (suc k), twice f k))
  where
    twice : (q n : ℕ) → q * 2 ^ suc n ≡ 2 * (q * 2 ^ n)
    twice q n = omega (arith, ap (λ (t : ℕ). q * t) (pow-suc 2 n))

-- A mask of the `k` lowest bits.
pub and_ones : (k a : ℕ) → bit_and a (2 ^ k - 1) ≡ a % 2 ^ k
and_ones zero a = omega (arith, and-zero a)
and_ones (suc k) a =
    let half : (2 ^ suc k - 1) / 2 ≡ 2 ^ k - 1 = omega (arith, pow-suc 2 k) in
    let odd : (2 ^ suc k - 1) % 2 ≡ 1 = omega (arith, pow-suc 2 k, one-le-pow k 2 (omega arith)) in
    and_step a (2 ^ suc k - 1)
    ∙ rw (half, odd, and_ones k (a / 2))
        (by_half (2 ^ k) (one-le-pow k 2 (omega arith)) ∙ ap (λ (t : ℕ). a % t) (sym (pow-suc 2 k)))
  where
    by_half : (m : ℕ) → 1 ≤ m → 2 * (a / 2 % m) + min (a % 2) 1 ≡ a % (m * 2)
    by_half m h =
        let same : a / (m * 2) ≡ a / 2 / m =
          ap (λ (t : ℕ). a / t) (omega arith) ∙ sym (div-div-eq-div-mul a 2 m) in
        let whole : m * 2 * (a / (m * 2)) ≡ m * 2 * (a / 2 / m) = ap (λ (t : ℕ). m * 2 * t) same in
        omega (arith, whole, div-add-mod (a / 2) m, div-add-mod a (m * 2))
