-- ===== src/Aprs/Rounds.antt =====
-- A round of the APRS-IS line reader: what is stored fits.
use patty.Prelude.{
  Bool, List, [], arith, false, get_or, if◌then◌else◌, leb, length, length-append, length-replicate,
  length-take, ltb, not, refl, replicate, take, true, ℕ, ◌&&◌, ◌*◌, ◌++◌, ◌+◌, ◌-◌, ◌==◌, ◌||◌, ◌∙◌,
  ◌∷◌, ◌≡◌, ◌≢◌, ◌≤◌,
}
use patty.Result.{
  Result, Returns, bind-Returns, einval, err, fault, guard-Returns, if-Returns, ok, refused,
  returned,
}
use patty.Frame.{Addr, Frame, callstrlen, is_char_valid, max_hops}
use patty.Frame.Control.{encode}
use patty.Callsign.{
  AddrState, Scan, addrstrlen, in_callsign, in_ssid, pton, scan, scan_char, scan_start, stored,
}
use patty.Aprs.Encoded.{IsSound, IsUi, IsWhole, encode-ne_fault, header_max}
use patty.Aprs.Sound.{HasRoom, put_addr-IsSound, to_body-HasRoom, ui_frame-IsSound}
use patty.Aprs.{
  Aprs, State, Target, Turn, addr_read, body_char, byte_stored, call_stored, complete, done,
  drop_line, end_addr, error, frame_encoded, header_char, in_body, in_comment, in_header, next,
  outside, packet_max, payload_max, round, to_body, to_dest, to_repeater, to_src, ui_frame,
}

-- The reader before `left` characters that it may read, while no read has failed.
pub record InBounds (left : ℕ) (a : Aprs) : Type 0 where
  pub call_fits : length a.call ≤ addrstrlen
  pub body_fits : length a.body ≤ payload_max
  pub frame_is : IsSound a.frame
  pub buf_is : length a.rx_buf ≡ packet_max
  pub read_fits : a.offset_i + left ≤ packet_max
  pub len_fits : a.readlen ≤ packet_max

-- pton stores six characters.
stored-IsWhole : (s : Scan) → IsWhole (stored s)
unfolding stored
stored-IsWhole s =
    let padding : List ℕ = replicate (callstrlen - length s.out) (0x20 * 2) in
    length-take callstrlen (s.out ++ padding)
    ∙ omega (
      arith,
      length-append s.out padding,
      length-replicate {A = ℕ} (callstrlen - length s.out) (0x20 * 2),
    )

AnyScan : Scan → Type 0
AnyScan s = Unit {0}

scan_char-Returns : (state : AddrState) (s : Scan) (c : ℕ) → Returns AnyScan (scan_char state s c)
unfolding scan_char AnyScan
scan_char-Returns in_callsign s c = if-Returns (ltb callstrlen (length s.out)) (refused einval) (
    if-Returns (c == b'-') (returned _ tt)
      (if-Returns (is_char_valid c) (returned _ tt) (refused einval)))
scan_char-Returns in_ssid s c =
    if-Returns (s.digits == 2) (refused einval)
      (if-Returns (leb b'0' c && leb c b'9') (returned _ tt) (refused einval))

scan-Returns : (text : List ℕ) (s : Scan) → Returns AnyScan (scan s text)
unfolding scan AnyScan
scan-Returns [] s = returned s tt
scan-Returns (c ∷ text) s =
    bind-Returns _ _ (scan_char-Returns s.state s c) λ t _. scan-Returns text t

-- Whatever the text, pton comes back, and stores an address of six characters if it succeeds.
pub pton-Returns : (text : List ℕ) → Returns IsWhole (pton text)
unfolding pton
pton-Returns text = guard-Returns _ einval _ (
    bind-Returns (scan scan_start (take addrstrlen text)) _
      (scan-Returns (take addrstrlen text) scan_start)
      λ s _.
        guard-Returns _ einval _
          (guard-Returns _ einval _ (returned (stored s) (stored-IsWhole s))))

abbrev pub is_outside : Turn → Bool
is_outside outside = true
is_outside _ = false

-- A part of the loop has stored nothing outside of an array.
pub data Within (left : ℕ) : Turn × Aprs → Type 0 where
  within :
      (turn : Turn) (a : Aprs) → is_outside turn ≡ false → InBounds left a → Within left (turn, a)

module _ {left : ℕ} where
  -- The reader with another frame and call.
  InBounds-frame :
      (a : Aprs) (frame : Frame)
      → InBounds left a
      → IsSound frame
      → InBounds left (record a { frame = frame; call = [] })
  InBounds-frame a frame h s = record {
    call_fits = omega arith;
    body_fits = h.body_fits;
    frame_is = s;
    buf_is = h.buf_is;
    read_fits = h.read_fits;
    len_fits = h.len_fits;
  }

  InBounds-state :
      (a : Aprs) (state : State) → InBounds left a → InBounds left (record a { state = state })
  InBounds-state a state h = record {
    call_fits = h.call_fits;
    body_fits = h.body_fits;
    frame_is = h.frame_is;
    buf_is = h.buf_is;
    read_fits = h.read_fits;
    len_fits = h.len_fits;
  }

  addr_read-Within :
      (target : Target) (a : Aprs) (r : Result Addr)
      → Returns IsWhole r
      → InBounds left a
      → HasRoom target a.frame
      → Within left (addr_read target a r)
  addr_read-Within target a _ (returned addr w) h room =
      within next _ refl
        (InBounds-frame a _ h (put_addr-IsSound target a.frame addr h.frame_is room w))
  addr_read-Within target a _ (refused e) h room = within drop_line a refl h

  end_addr-Within :
      (target : Target) (a : Aprs)
      → InBounds left a
      → HasRoom target a.frame
      → Within left (end_addr target a)
  unfolding end_addr
  end_addr-Within target a h room =
      let fits : ltb (length a.call) (addrstrlen + 1) ≡ true = ground (arith, h.call_fits) in
      rw fits (addr_read-Within target a (pton a.call) (pton-Returns a.call) h room)

  to_body-InBounds : (ends : Bool) (a : Aprs) → InBounds left a → InBounds left (to_body ends a)
  to_body-InBounds true a h = InBounds-state a in_body h
  to_body-InBounds false a h = h

  if-Within :
      {r s : Turn × Aprs} (test : Bool)
      → (test ≡ true → Within left r)
      → (test ≡ false → Within left s)
      → Within left (if test then r else s)
  if-Within true f g = f refl
  if-Within false f g = g refl

  call_stored-Within :
      (a : Aprs) (c : ℕ)
      → InBounds left a
      → length a.call ≢ addrstrlen
      → Within left (call_stored a (byte_stored (addrstrlen + 1) a.call c))
  call_stored-Within a c h ne =
      let fits : ltb (length a.call) (addrstrlen + 1) ≡ true = ground (arith, h.call_fits) in
      rw fits (
        within next _ refl (record {
          call_fits = omega (arith, length-append a.call (c ∷ []), h.call_fits, ne);
          body_fits = h.body_fits;
          frame_is = h.frame_is;
          buf_is = h.buf_is;
          read_fits = h.read_fits;
          len_fits = h.len_fits;
        }))

  header_char-Within : (a : Aprs) (c : ℕ) → InBounds left a → Within left (header_char a c)
  unfolding header_char
  header_char-Within a c h =
      if-Within (c == b'#') (λ _. within next _ refl (InBounds-state a in_comment h))
        λ _.
          if-Within (c == b'>') (λ _. end_addr-Within to_src a h tt)
            λ _.
              if-Within (c == b',' || c == b':')
                (λ _.
                  if-Within (not (get_or a.frame.dest.callsign 0 0 == 0))
                    (λ _.
                      if-Within (a.frame.hops == max_hops) (λ _. within drop_line a refl h)
                        λ more.
                          end_addr-Within to_repeater (to_body (c == b':') a)
                            (to_body-InBounds (c == b':') a h)
                            (to_body-HasRoom (c == b':') a
                              (ground (arith, more, h.frame_is.hops_fit))))
                    (λ _.
                      end_addr-Within to_dest (to_body (c == b':') a)
                        (to_body-InBounds (c == b':') a h) tt))
                λ _.
                  if-Within (is_char_valid c)
                    (λ _.
                      if-Within (length a.call == addrstrlen) (λ _. within drop_line a refl h)
                        λ more. call_stored-Within a c h (ground (arith, more)))
                    (λ _. within drop_line a refl h)

  frame_encoded-Within :
      (a : Aprs) (r : Result (List ℕ))
      → InBounds left a
      → r ≢ fault
      → Within left (frame_encoded a r)
  frame_encoded-Within a (ok packet) h ne = within done _ refl (record {
    call_fits = h.call_fits;
    body_fits = h.body_fits;
    frame_is = h.frame_is;
    buf_is = h.buf_is;
    read_fits = h.read_fits;
    len_fits = h.len_fits;
  })
  frame_encoded-Within a (err e) h ne = within (error e) _ refl (record {
    call_fits = h.call_fits;
    body_fits = h.body_fits;
    frame_is = h.frame_is;
    buf_is = h.buf_is;
    read_fits = h.read_fits;
    len_fits = h.len_fits;
  })
  frame_encoded-Within a fault h ne = absurd (ne refl)

  body_char-Within :
      (len : ℕ) (a : Aprs) (c : ℕ)
      → header_max ≤ len
      → InBounds left a
      → Within left (body_char len a c)
  unfolding body_char
  body_char-Within len a c room h =
      if-Within (c == b'\r') (λ _. within next a refl h)
        λ _.
          if-Within (c == b'\n')
            (λ _.
              let sound = ui_frame-IsSound a h.frame_is in
              let ui : IsUi (ui_frame a) a.body = record {
                control_is = refl;
                info_is = refl;
                infolen_is = refl;
              } in
              frame_encoded-Within (record a { state = complete; frame = ui_frame a })
                (encode (ui_frame a) len)
                (record {
                  call_fits = h.call_fits;
                  body_fits = h.body_fits;
                  frame_is = sound;
                  buf_is = h.buf_is;
                  read_fits = h.read_fits;
                  len_fits = h.len_fits;
                })
                (encode-ne_fault (ui_frame a) a.body len sound ui room))
            λ _.
              if-Within (length a.body == payload_max) (λ _. within drop_line a refl h)
                λ more.
                  let fits : ltb (length a.body) payload_max ≡ true =
                    ground (arith, more, h.body_fits) in
                  rw fits (
                    within next _ refl (record {
                      call_fits = h.call_fits;
                      body_fits = ground (arith, length-append a.body (c ∷ []), h.body_fits, more);
                      frame_is = h.frame_is;
                      buf_is = h.buf_is;
                      read_fits = h.read_fits;
                      len_fits = h.len_fits;
                    }))

  pub round-Within :
      (len : ℕ) (state : State) (a : Aprs) (c : ℕ)
      → header_max ≤ len
      → InBounds left a
      → Within left (round len state a c)
  unfolding round
  round-Within len in_header a c room h = header_char-Within a c h
  round-Within len in_comment a c room h =
      if-Within (c == b'\r') (λ _. within next a refl h)
        λ _.
          if-Within (c == b'\n') (λ _. within done _ refl (InBounds-state a in_header h))
            λ _. within next a refl h
  round-Within len in_body a c room h = body_char-Within len a c room h
  round-Within len complete a c room h = within done a refl h
