-- ===== src/Result.antt =====
-- What a call of the C code comes back with.
use patty.Prelude.{
  Bool, List, [], ap, arith, drop, drop_append, false, if◌then◌else◌, leb, length, length-append,
  refl, suc, take, take_append, true, zero, ℕ, ◌++◌, ◌+◌, ◌∙◌, ◌∷◌, ◌≡◌,
}

-- The values of `errno` that the code sets; `stale` where it returns -1 and leaves it as it was, or
-- as a system call left it.
pub data Errno : Type 0 where
  eio eoverflow einval enotsup enetdown ebadf eexist econnrefused etimedout eaddrinuse : Errno
  eisconn eopnotsupp enodev enomem stale : Errno

-- A value; the return value -1 with `errno` set; or an access outside an array, which C leaves
-- undefined.
pub data Result {ℓ} (A : Type ℓ) : Type ℓ where
  ok : A → Result A
  err : Errno → Result A
  fault : Result A

infixl 5 ◌>>=◌ ◌>>◌
abbrev pub ◌>>=◌ {ℓ κ} : {A : Type ℓ} {B : Type κ} → Result A → (A → Result B) → Result B
ok a >>= f = f a
err e >>= f = err e
fault >>= f = fault

abbrev pub ◌>>◌ {ℓ} : {B : Type ℓ} → Result (Unit {0}) → Result B → Result B
m >> k = m >>= λ _. k

-- Goes on if the test holds, and returns -1 with `e` if not.
abbrev pub guard : Bool → Errno → Result (Unit {0})
guard true e = ok tt
guard false e = err e

-- `buf[i]`
abbrev pub read : List ℕ → ℕ → Result ℕ
read [] i = fault
read (b ∷ bs) zero = ok b
read (b ∷ bs) (suc i) = read bs i

-- The `n` bytes from `offset` on, for a copy.
abbrev pub read_bytes : List ℕ → ℕ → ℕ → Result (List ℕ)
read_bytes buf offset n =
    if leb (offset + n) (length buf) then ok (take n (drop offset buf)) else fault

-- Reading what stands behind a prefix.
pub read_append : (xs : List ℕ) (b : ℕ) (rest : List ℕ) → read (xs ++ (b ∷ rest)) (length xs) ≡ ok b
read_append [] b rest = refl
read_append (x ∷ xs) b rest = read_append xs b rest

pub read_bytes_append :
    (xs ys rest : List ℕ) → read_bytes (xs ++ (ys ++ rest)) (length xs) (length ys) ≡ ok ys
read_bytes_append xs ys rest = rw (fits, drop_append xs (ys ++ rest), take_append ys rest)
  where
    fits : leb (length xs + length ys) (length (xs ++ (ys ++ rest))) ≡ true
    fits = ground (arith, length-append xs (ys ++ rest), length-append ys rest)

pub ok-injective {ℓ} : {A : Type ℓ} {a b : A} → ok a ≡ ok b → a ≡ b
ok-injective h = cc

-- What a guarded step that succeeded has gone through.
pub guard-eq-ok {ℓ} :
    {A : Type ℓ} (test : Bool) (e : Errno) (k : Result A) {a : A}
    → (guard test e >> k) ≡ ok a
    → (test ≡ true) × (k ≡ ok a)
guard-eq-ok true e k h = (refl, h)
guard-eq-ok false e k h = cc

pub read_at :
    (xs : List ℕ) (i : ℕ) (rest : List ℕ) → read (xs ++ rest) (length xs + i) ≡ read rest i
read_at [] i rest = ap (read rest) (omega arith)
read_at (x ∷ xs) i rest =
    let e : suc (length xs) + i ≡ suc (length xs + i) = omega arith in
    ap (read (x ∷ (xs ++ rest))) e ∙ read_at xs i rest

-- What a step that ends in a value has gone through.
pub map-eq-ok {ℓ κ} :
    {A : Type ℓ} {B : Type κ} (m : Result A) (f : A → B) {b : B}
    → (m >>= λ a. ok (f a)) ≡ ok b
    → (a : A) × (m ≡ ok a) × (f a ≡ b)
map-eq-ok (ok a) f h = (a, refl, ok-injective h)
map-eq-ok (err e) f h = cc
map-eq-ok fault f h = cc

pub bind-eq-ok {ℓ κ} :
    {A : Type ℓ} {B : Type κ} (m : Result A) (k : A → Result B) {b : B}
    → (m >>= k) ≡ ok b
    → (a : A) × (m ≡ ok a) × (k a ≡ ok b)
bind-eq-ok (ok a) k h = (a, refl, h)
bind-eq-ok (err e) k h = cc
bind-eq-ok fault k h = cc

-- What comes back, if anything does, has a property.
pub data Yields {A : Type 0} (P : A → Type 0) : Result A → Type 0 where
  some_value : (a : A) → P a → Yields P (ok a)
  no_value : (e : Errno) → Yields P (err e)
  undefined : Yields P fault

module _ {A : Type 0} {P : A → Type 0} where
  pub if-Yields :
      {r s : Result A} (test : Bool) → Yields P r → Yields P s → Yields P (if test then r else s)
  if-Yields true p q = p
  if-Yields false p q = q

  pub bind-Yields :
      {B : Type 0} {Q : B → Type 0} (m : Result A) (f : A → Result B)
      → Yields P m
      → ((a : A) → P a → Yields Q (f a))
      → Yields Q (m >>= f)
  bind-Yields m f (some_value a p) q = q a p
  bind-Yields m f (no_value e) q = no_value e
  bind-Yields m f undefined q = undefined

  pub ok-Yields : (a : A) → Yields P (ok a) → P a
  ok-Yields a (some_value _ p) = p

-- Anything has no property at all.
pub any-Yields : {A : Type 0} (r : Result A) → Yields (λ _. Unit {0}) r
any-Yields (ok a) = some_value a tt
any-Yields (err e) = no_value e
any-Yields fault = undefined

-- A call that comes back, with a value that has a property or with an error.
pub data Returns {A : Type 0} (P : A → Type 0) : Result A → Type 0 where
  returned : (a : A) → P a → Returns P (ok a)
  refused : (e : Errno) → Returns P (err e)

pub guard-Returns :
    {A : Type 0} {P : A → Type 0} (test : Bool) (e : Errno) (r : Result A)
    → Returns P r
    → Returns P (guard test e >> r)
guard-Returns true e r h = h
guard-Returns false e r h = refused e

pub bind-Returns :
    {A B : Type 0} {P : A → Type 0} {Q : B → Type 0} (m : Result A) (f : A → Result B)
    → Returns P m
    → ((a : A) → P a → Returns Q (f a))
    → Returns Q (m >>= f)
bind-Returns m f (returned a p) q = q a p
bind-Returns m f (refused e) q = refused e

pub if-Returns :
    {A : Type 0} {P : A → Type 0} {r s : Result A} (test : Bool)
    → Returns P r
    → Returns P s
    → Returns P (if test then r else s)
if-Returns true h k = h
if-Returns false h k = k
