-- ===== src/Sock/Assembler/Reassembly.antt =====
-- Reassembly of a run of segments by the functions of sock.c.
use patty.Prelude.{
  All, List, Option, [], append-nil, append_assoc, arith, false, if◌then◌else◌, leb, length,
  length-append, ltb, none, refl, some, suc, true, ℕ, ◌%◌, ◌*◌, ◌++◌, ◌+◌, ◌-◌, ◌<◌, ◌==◌, ◌^◌, ◌∙◌,
  ◌∷◌, ◌≡◌, ◌≤◌,
}
use patty.Result.{Result, err, ok, stale, ◌>>=◌}
use patty.Sock.Assembler.{
  Assembler, assembler_init, assembler_pending, assembler_read, assembler_save, assembler_stop,
  needs_new,
}

-- A segment that says that `remaining` more come: it is saved if it is the one that is due.
abbrev pub accept : ℕ → Option Assembler → ℕ → List ℕ → Result (Option Assembler)
accept maxlen asm remaining bytes =
    if assembler_pending asm remaining then assembler_save maxlen asm bytes else err stale

-- The segments in order; each but the last announces those behind it.
pub accept_all : ℕ → Option Assembler → List (List ℕ) → Result (Option Assembler)
accept_all maxlen asm [] = ok asm
accept_all maxlen asm (bytes ∷ rest) =
    accept maxlen asm (length rest) bytes >>= λ next. accept_all maxlen next rest

abbrev pub joined : List (List ℕ) → List ℕ
joined [] = []
joined (bytes ∷ rest) = bytes ++ joined rest

-- A segment fits a frame with its header byte.
abbrev pub IsSegment : ℕ → List ℕ → Type 0
IsSegment maxlen bytes = suc (length bytes) ≤ maxlen

-- From an assembler that waits for exactly these segments.
accept_all-joined :
    (maxlen : ℕ) (segments : List (List ℕ)) (total size : ℕ) (buf : List ℕ)
    → maxlen < 2 ^ 32
    → All (IsSegment maxlen) segments
    → 0 < total
    → length buf + length segments * maxlen ≤ size
    → accept_all maxlen
        (some (record { total = total; remaining = length segments; size = size; buf = buf }))
        segments
      ≡ ok (
          some (record { total = total; remaining = 0; size = size; buf = buf ++ joined segments }))
unfolding accept_all assembler_pending assembler_save
accept_all-joined maxlen [] total size buf small fits some_total room = rw (append-nil buf) refl
accept_all-joined maxlen (bytes ∷ rest) total size buf small (fit, fits) some_total room =
    let next = buf ++ bytes in
    let grown = length-append buf bytes in
    let ih =
      accept_all-joined maxlen rest total size next small fits some_total
        (omega (arith, grown, room, fit)) in
    let open_total : (total == 0) ≡ false = ground (arith, some_total) in
    let due : (length rest + 1 == suc (length rest)) ≡ true = ground arith in
    let short : ltb ((maxlen + 2 ^ 64 - 1) % 2 ^ 64) (length bytes) ≡ false =
      ground (arith, fit, small) in
    let more : (suc (length rest) == 0) ≡ false = ground arith in
    let inside : leb (length buf + length bytes) size ≡ true = ground (arith, fit, room) in
    let left : suc (length rest) - 1 ≡ length rest = omega arith in
    rw (open_total, due, short, more, inside, left)
      (ih ∙ rw (append_assoc buf bytes (joined rest)) refl)

-- An assembler that a run of segments may begin with: none, or one that has been stopped.
pub data IsIdle : Option Assembler → Type 0 where
  no_assembler : IsIdle none
  stopped : (asm : Assembler) → IsIdle (assembler_stop (some asm))

assembler_init-fresh :
    (maxlen n : ℕ) (asm : Option Assembler)
    → IsIdle asm
    → 2 ≤ n
    → assembler_init maxlen asm n
      ≡ ok (some (record { total = n; remaining = n; size = n * maxlen; buf = [] }))
unfolding assembler_init needs_new assembler_stop
assembler_init-fresh maxlen n none no_assembler two =
    let enough : ltb n 2 ≡ false = ground (arith, two) in rw enough refl
assembler_init-fresh maxlen n _ (stopped asm) two =
    let enough : ltb n 2 ≡ false = ground (arith, two) in
    let bigger : ltb 0 n ≡ true = ground (arith, two) in rw (enough, bigger) refl

-- Reassembly gives back what was cut into segments: at least two segments, each at least a byte
-- short of n_maxlen_rx, which is below 2 ^ 32, that come in order to an assembler that is none or
-- stopped, are all taken, and what is then read is their contents joined, behind the protocol byte
-- that the first one begins with.
pub assembler_read-joined :
    (maxlen : ℕ) (asm : Option Assembler) (b : ℕ) (first : List ℕ) (segments : List (List ℕ))
    → IsIdle asm
    → maxlen < 2 ^ 32
    → 1 ≤ length segments
    → All (IsSegment maxlen) ((b ∷ first) ∷ segments)
    → (assembler_init maxlen asm (length ((b ∷ first) ∷ segments)) >>= λ opened.
        accept_all maxlen opened ((b ∷ first) ∷ segments) >>= λ full. assembler_read full)
      ≡ ok (some (first ++ joined segments))
unfolding assembler_read
assembler_read-joined maxlen asm b first segments idle small two fits =
    let run = (b ∷ first) ∷ segments in
    let taken =
      accept_all-joined maxlen run (length run) (length run * maxlen) [] small fits
        (omega (arith, two)) (omega arith) in
    let full : (suc (length (first ++ joined segments)) == 0) ≡ false = ground arith in
    rw (assembler_init-fresh maxlen (length run) asm idle (omega (arith, two)), taken, full) refl
