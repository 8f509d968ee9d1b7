-- ===== src/Kiss/Tnc/Recv.antt =====
-- patty_kiss_tnc_recv on what patty_kiss_frame_send wrote.
use patty.Prelude.{
  ==_ne, All, List, Option, [], ap, append-nil, arith, false, length, length-append, length-drop,
  none, refl, some, suc, sym, take, true, zero, ℕ, ◌++◌, ◌+◌, ◌-◌, ◌<◌, ◌>>=◌, ◌∙◌, ◌∷◌, ◌≡◌, ◌≤◌,
}
use patty.Prelude.Int.{negsuc, pos, sub_ℕ}
use patty.Kiss.{Fd, fend, frame_send}
use patty.Kiss.Send.{encode, frame_send-encode}
use patty.Kiss.Tnc.Frames.{IsReady, frame-Taken}
use patty.Kiss.Tnc.Frames.Body.{Taken}
use patty.Kiss.Tnc.Frames.Rounds.{unread}
use patty.Kiss.Tnc.{Input, Tnc, drain, drain_loop, fill, flush, fresh, pending, recv_loop}

recv_pending :
    (fuel len : ℕ) (t : Tnc) (input : Input)
    → pending t ≡ true
    → recv_loop (suc fuel) t len input ≡ some (pos (flush t).0, (flush t).1, input)
unfolding recv_loop
recv_pending fuel len t input h = ground arith

recv_drained :
    (fuel len n : ℕ) (t t' : Tnc) (input : Input)
    → pending t ≡ false
    → drain t len ≡ some (pos n, t')
    → 0 < n
    → recv_loop (suc fuel) t len input ≡ recv_loop fuel t' len input
unfolding recv_loop
recv_drained fuel len n t t' input h e lt = rw (h, recv_loop) (rw e (rw (==_ne n 0 (omega arith))))

recv_filled :
    (fuel len b : ℕ) (bs : List ℕ) (t t' : Tnc) (input : Input)
    → pending t ≡ false
    → drain t len ≡ some (pos 0, t')
    → recv_loop (suc fuel) t len (some (b ∷ bs) ∷ input)
      ≡ recv_loop fuel
          (record t' { buf = b ∷ bs; readlen = length (b ∷ bs); offset_i = 0 })
          len
          input
unfolding recv_loop fill
recv_filled fuel len b bs t t' input h e = rw (h, recv_loop) (rw e)

-- What a frame leaves behind is pending if it came on port 0 and is not empty.
pending-eq-true :
    (len : ℕ) (t t' : Tnc) (p more : List ℕ)
    → t.port ≡ 0
    → 0 < length p
    → Taken len t p more t'
    → pending t' ≡ true
unfolding pending
pending-eq-true len t t' p more hp lt taken =
    let counted = taken.count in
    let ended = taken.at_end in
    let named = taken.command_kept in let ported = taken.port_kept in ground arith

pending-IsReady : (len : ℕ) (t : Tnc) → IsReady len t → pending t ≡ false
unfolding pending
pending-IsReady len t r = let between = r.between in ground arith

flush-IsReady :
    (len : ℕ) (t t' : Tnc) (p more : List ℕ) → Taken len t p more t' → IsReady len (flush t').1
unfolding flush
flush-IsReady len t t' p more taken = record {
  between = refl;
  empty = refl;
  room = taken.room;
  whole = taken.whole;
}

pub sub_ℕ-eq_pos : (a b : ℕ) → b ≤ a → sub_ℕ a b ≡ pos (a - b)
sub_ℕ-eq_pos a b h = ground arith

drain_frame :
    (p more : List ℕ) (len : ℕ) (t : Tnc)
    → IsReady len t
    → length p < len
    → unread t ≡ encode 0 p ++ more
    → (t' : Tnc) × (drain t len ≡ some (pos (t'.offset_i - t.offset_i), t'))
      × (t.offset_i < t'.offset_i)
      × Taken len (record t { port = 0 }) p more t'
unfolding drain
drain_frame p more len t r lt h =
    let (t', run, taken) =
      frame-Taken p more 0 (t.readlen + 1) len t r lt h
        (omega (arith, length-drop t.offset_i t.buf, r.whole)) in
    let forward : t.offset_i < t'.offset_i = omega (
      arith,
      ap length h,
      ap length taken.left,
      ap length taken.buf_kept,
      length-drop t.offset_i t.buf,
      length-drop t'.offset_i t'.buf,
      length-append (encode 0 p) more,
    ) in
    (t', rw run (rw (sub_ℕ-eq_pos t'.offset_i t.offset_i (omega arith))), forward, taken)

-- From between two frames, patty_kiss_tnc_recv takes the next frame of the read buffer: its return
-- value is the frame's length, the caller's array begins with the frame's bytes, and the receiver
-- is between frames again with the bytes behind the frame still to come. The frame is neither
-- empty nor as long as the array.
pub recv-encode :
    (fuel len : ℕ) (p more : List ℕ) (t : Tnc) (input : Input)
    → IsReady len t
    → 0 < length p
    → length p < len
    → unread t ≡ encode 0 p ++ more
    → (t' : Tnc) × (recv_loop (suc (suc fuel)) t len input ≡ some (pos (length p), t', input))
      × (take (length p) t'.dest ≡ p)
      × IsReady len t'
      × (unread t' ≡ more)
unfolding flush
recv-encode fuel len p more t input r nonempty fits h =
    let (t₁, drained, forward, taken) = drain_frame p more len t r fits h in
    let count : t₁.offset_o ≡ length p = omega (arith, taken.count, r.empty) in
    (
      (flush t₁).1,
      recv_drained (suc fuel) len (t₁.offset_i - t.offset_i) t t₁ input (pending-IsReady len t r)
            drained (omega arith)
          ∙ recv_pending fuel len t₁ input (pending-eq-true len _ t₁ p more refl nonempty taken)
          ∙ ap (λ (n : ℕ). some (pos n, (flush t₁).1, input)) count,
      ap (λ n. take n t₁.dest) (sym count) ∙ taken.bytes ∙ ap (λ n. take n t.dest ++ p) r.empty,
      flush-IsReady len _ t₁ p more taken,
      taken.left,
    )

drain_loop_end :
    (fuel len : ℕ) (t : Tnc) → t.offset_i ≡ t.readlen → drain_loop (suc fuel) len t ≡ some (true, t)
unfolding drain_loop
drain_loop_end fuel len t h = ground arith

drain_empty : (t : Tnc) (len : ℕ) → t.offset_i ≡ t.readlen → drain t len ≡ some (pos 0, t)
unfolding drain
drain_empty t len h =
    let e : t.readlen + 1 ≡ suc t.readlen = omega arith in
    rw (e, drain_loop_end t.readlen len t h)
      (rw (sub_ℕ-eq_pos t.offset_i t.offset_i (omega arith))
        (ap (λ (n : ℕ). some (pos n, t)) (omega arith)))

-- A client's calls of patty_kiss_tnc_recv, with the frames that they return.
pub recv_all : ℕ → ℕ → Tnc → Input → Option (List (List ℕ))
recv_all zero len t input = some []
recv_all (suc calls) len t input = recv_loop 2 t len input >>= λ r. elim r.0 [
  | negsuc n ↦ none
  | pos n ↦ recv_all calls len r.1 r.2 >>= λ frames. some (take n r.1.dest ∷ frames)
]

abbrev pub encode_all : List (List ℕ) → List ℕ
encode_all [] = []
encode_all (p ∷ ps) = encode 0 p ++ encode_all ps

abbrev pub Fits : ℕ → List ℕ → Type 0
Fits len p = (0 < length p) × (length p < len)

-- Frames that were sent one behind the other, and that came with one read, are received one by one
-- and in order, each as it was sent. No frame is empty or as long as the caller's array.
pub recv_all-encode_all :
    (ps : List (List ℕ)) (len : ℕ) (t : Tnc) (input : Input)
    → All (Fits len) ps
    → IsReady len t
    → unread t ≡ encode_all ps
    → recv_all (length ps) len t input ≡ some ps
unfolding recv_all
recv_all-encode_all [] len t input fits r h = refl
recv_all-encode_all (p ∷ ps) len t input (fit, fits) r h =
    let (t', run, bytes, ready, left) =
      recv-encode 0 len p (encode_all ps) t input r fit.0 fit.1 h in
    rw run (rw (recv_all-encode_all ps len t' input fits ready left) (rw bytes))

-- The first call on a new receiver reads, and goes on with what was read.
recv-fresh :
    (fuel len b : ℕ) (bs memory dest : List ℕ) (input : Input)
    → recv_loop (suc fuel) (fresh memory dest) len (some (b ∷ bs) ∷ input)
      ≡ recv_loop fuel
          (record (fresh memory dest) { buf = b ∷ bs; readlen = length (b ∷ bs); offset_i = 0 })
          len
          input
unfolding fresh pending
recv-fresh fuel len b bs memory dest input =
    recv_filled fuel len b bs (fresh memory dest) (fresh memory dest) input refl
      (drain_empty (fresh memory dest) len refl)

-- What patty_kiss_frame_send wrote to an empty line, a new receiver that reads it at once returns:
-- patty_kiss_tnc_recv has the return value of the sender, and the frame at the start of the
-- caller's array.
pub recv-frame_send :
    (fd : Fd) (w w' : fd.World) (frame memory dest : List ℕ) (n : ℕ) (input : Input)
    → fd.stream w ≡ []
    → frame_send fd w frame 0 ≡ some (w', n)
    → 0 < length frame
    → length frame < length dest
    → (t : Tnc) × (recv_loop 3 (fresh memory dest) (length dest) (some (fd.stream w') ∷ input)
        ≡ some (pos n, t, input))
      × (take n t.dest ≡ frame)
unfolding fresh
recv-frame_send fd w w' frame memory dest n input clean sent nonempty fits =
    let (returned, written) = frame_send-encode fd w w' frame 0 n sent in
    let line : fd.stream w' ≡ encode 0 frame = written ∙ ap (λ l. l ++ encode 0 frame) clean in
    let read : Tnc = record (fresh memory dest) {
      buf = encode 0 frame;
      readlen = length (encode 0 frame);
      offset_i = 0;
    } in
    let ready : IsReady (length dest) read = record {
      between = refl;
      empty = refl;
      room = refl;
      whole = refl;
    } in
    let (t, run, bytes, _, _) =
      recv-encode 0 (length dest) frame [] read input ready nonempty fits (sym (append-nil _)) in
    (
      t,
      rw (line, returned) (recv-fresh 2 (length dest) fend _ memory dest input ∙ run),
      rw returned bytes,
    )
