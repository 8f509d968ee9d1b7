-- ===== src/Hash.antt =====
-- The hash of hash.c, and the hash of an address of ax25.c. A hash is a uint32_t.
use patty.Prelude.{
  List, [], ap, bit_xor, if◌then◌else◌, leb, refl, sym, ℕ, ◌%◌, ◌*◌, ◌++◌, ◌+◌, ◌/◌, ◌^◌, ◌∙◌, ◌∷◌,
  ◌≡◌,
}
use patty.Frame.{Addr, ssid_number}

-- A uint32_t.
abbrev word : ℕ → ℕ
word n = n % 2 ^ 32

-- patty_hash_init
unfoldable pub hash_init : ℕ
hash_init = 0xffffffdf

-- One byte of patty_hash_data, and hash_byte of ax25.c.
unfoldable pub hash_byte : ℕ → ℕ → ℕ
hash_byte hash c =
    let added = word (hash + c) in
    let shifted = word (added + added * 2 ^ 10) in bit_xor shifted (shifted / 2 ^ 6)

-- patty_hash_data
pub hash_data : ℕ → List ℕ → ℕ
unfolding hash_byte
hash_data hash [] = hash
hash_data hash (c ∷ bytes) = hash_data (hash_byte hash c) bytes

-- patty_hash_end
unfoldable pub hash_end : ℕ → ℕ
hash_end hash =
    let first = word (hash + hash * 2 ^ 3) in
    let second = bit_xor first (first / 2 ^ 11) in word (second + second * 2 ^ 15)

-- patty_hash
pub hash_of : List ℕ → ℕ
unfolding hash_data hash_end hash_init
hash_of bytes = hash_end (hash_data hash_init bytes)

-- `a >> 1` of a byte of a callsign, as a uint8_t. Callsigns are arrays of char, here the signed one of
-- the platforms the code runs on: the shift keeps the highest bit.
abbrev pub half : ℕ → ℕ
half c = if leb 0x80 c then c / 2 + 0x80 else c / 2

-- The loop of patty_ax25_addr_hash over the callsign.
unfoldable pub hash_callsign : ℕ → List ℕ → ℕ
unfolding hash_byte
hash_callsign hash [] = hash
hash_callsign hash (c ∷ rest) = hash_callsign (hash_byte hash (half c)) rest

-- patty_ax25_addr_hash
unfoldable pub addr_hash : ℕ → Addr → ℕ
unfolding hash_callsign
addr_hash hash addr = hash_byte (hash_callsign hash addr.callsign) (ssid_number addr.ssid)

-- `a >> 1` of the bytes of a callsign.
abbrev halves : List ℕ → List ℕ
halves [] = []
halves (c ∷ rest) = half c ∷ halves rest

hash_callsign-data :
    (hash : ℕ) (callsign : List ℕ) → hash_callsign hash callsign ≡ hash_data hash (halves callsign)
unfolding hash_callsign hash_data
hash_callsign-data hash [] = refl
hash_callsign-data hash (c ∷ rest) = hash_callsign-data (hash_byte hash (half c)) rest

hash_data-append :
    (hash : ℕ) (xs ys : List ℕ) → hash_data hash (xs ++ ys) ≡ hash_data (hash_data hash xs) ys
unfolding hash_data
hash_data-append hash [] ys = refl
hash_data-append hash (x ∷ xs) ys = hash_data-append (hash_byte hash x) xs ys

-- The bytes of an address as they enter its hash: those of the callsign, shifted, and the number of
-- the SSID.
abbrev pub key_bytes : Addr → List ℕ
key_bytes addr = halves addr.callsign ++ (ssid_number addr.ssid ∷ [])

-- The hash of an address is that of these bytes by patty_hash.
pub addr_hash-hash_of :
    (addr : Addr) → hash_end (addr_hash hash_init addr) ≡ hash_of (key_bytes addr)
unfolding addr_hash hash_of hash_data
addr_hash-hash_of addr = ap hash_end (
    ap (λ h. hash_byte h (ssid_number addr.ssid)) (hash_callsign-data hash_init addr.callsign)
    ∙ sym (hash_data-append hash_init (halves addr.callsign) (ssid_number addr.ssid ∷ [])))
