-- ===== src/Kiss/Tnc/Tests.antt =====
-- Runs of the sender and the receiver on concrete input, and their theorems at concrete inputs.
use patty.Prelude.{
  List, [], arith, false, refl, replicate, some, some-injective, sym, take, ℕ, ◌++◌, ◌∷◌, ◌≡◌,
}
use patty.Prelude.Int.{pos, ℤ}
use patty.Kiss.{
  Fd, escape_of, frame_send, send_loop, start_byte, write_byte, write_rest, write_start,
}
use patty.Kiss.Send.{encode, frame_send_total}
use patty.Kiss.Tnc.{Tnc, drain, frame_command, fresh, idle, pending, recv_loop}
use patty.Kiss.Tnc.Frames.{IsReady}
use patty.Kiss.Tnc.Frames.Rounds.{unread}
use patty.Kiss.Tnc.Recv.{recv-frame_send, recv_all, recv_all-encode_all}
use patty.Kiss.Tnc.Fends.{drain_second_fend}

-- A line that takes all that is written.
abbrev line : Fd
line = record {
  World = List ℕ;
  write = λ w bytes. some (w ++ bytes);
  stream = λ w. w;
  write_appends = λ w w' bytes h. sym (some-injective _ _ h);
}

abbrev memory : List ℕ
memory = replicate 16 0xaa

-- Both special bytes, and one that is plain.
abbrev frame : List ℕ
frame = 0xc0 ∷ 0x41 ∷ 0xdb ∷ []

abbrev on_line : List ℕ
on_line = 0xc0 ∷ 0x00 ∷ 0xdb ∷ 0xdc ∷ 0x41 ∷ 0xdb ∷ 0xdd ∷ 0xc0 ∷ []

frame_send_run : frame_send line [] frame 0 ≡ some (on_line, 3)
unfolding frame_send write_start write_byte write_rest send_loop escape_of start_byte
frame_send_run = refl

-- A read buffer with two frames, and the receiver before them.
abbrev two_frames : Tnc
two_frames = record {
  state = idle;
  command = 0xff;
  port = 0;
  buf = on_line ++ (0xc0 ∷ 0x00 ∷ 0x42 ∷ 0xc0 ∷ []);
  readlen = 12;
  offset_i = 0;
  offset_o = 0;
  dropped = 0;
  dest = memory;
}

two_frames-IsReady : IsReady 16 two_frames
two_frames-IsReady = record { between = refl; empty = refl; room = refl; whole = refl }

frame_send_total_example :
    (w' : List ℕ) × (frame_send line [] frame 5 ≡ some (w', 3)) × (w' ≡ [] ++ encode 5 frame)
frame_send_total_example = frame_send_total line (λ w bytes. (w ++ bytes, refl)) [] frame 5

recv_all-encode_all_example : recv_all 2 16 two_frames [] ≡ some (frame ∷ (0x42 ∷ []) ∷ [])
unfolding escape_of
recv_all-encode_all_example =
    recv_all-encode_all (frame ∷ (0x42 ∷ []) ∷ []) 16 two_frames [] (omega arith) two_frames-IsReady
      refl

recv-frame_send_example :
    (t : Tnc) × (recv_loop 3 (fresh [] memory) 16 (some on_line ∷ []) ≡ some (pos 3, t, []))
    × (take 3 t.dest ≡ frame)
recv-frame_send_example =
    recv-frame_send line [] on_line frame [] memory 3 [] refl frame_send_run (omega arith)
      (omega arith)

-- Behind a frame for another port.
abbrev waiting : Tnc
waiting = record two_frames { state = frame_command; port = 3; offset_o = 1 }

drain_second_fend_example :
    (n : ℤ) × (t' : Tnc) × (drain waiting 16 ≡ some (n, t'))
    × (t'.state ≡ frame_command)
    × (t'.port ≡ 12)
    × (pending t' ≡ false)
    × (take t'.offset_o t'.dest ≡ 0xaa ∷ 0 ∷ frame)
    × (unread t' ≡ 0xc0 ∷ 0x00 ∷ 0x42 ∷ 0xc0 ∷ [])
unfolding escape_of
drain_second_fend_example =
    drain_second_fend frame (0xc0 ∷ 0x00 ∷ 0x42 ∷ 0xc0 ∷ []) 16 waiting refl refl refl (omega arith)
      refl
