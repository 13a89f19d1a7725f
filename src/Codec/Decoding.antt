-- ===== src/Codec/Decoding.antt =====
-- What `FrameDecoder` of backend/app/hostcomm/v2_contract/codec.py makes of a stream: its memory is
-- bounded, the cut into reads does not matter, and a line feed brings it back in step.
use smd_web_hmi.Prelude.{
  ℕ, ◌+◌, ◌≤◌, ◌<◌, ◌≡◌, refl, sym, ap, inl, inr, Bool, true, false, Option, none, some, List, [],
  ◌∷◌, ◌++◌, arith, length, append_nil, append_assoc, length-append, any, Bool-cases, Option-cases,
}
use smd_web_hmi.Codec.Frames.{
  FrameDecoder, new_decoder, max_frame_bytes, is_lf, is_cr, line_of, receive, skip, collect,
  feed_byte, feed, encode_message, send, encode_messages,
}

-- Between two lines: nothing is buffered and nothing is skipped.
abbrev pub reading : List ℕ → ℕ → FrameDecoder
reading line errors = record { buffer = line; discarding = false; error_count = errors }

-- What holds of a decoder between two bytes.
abbrev pub IsBounded : FrameDecoder → Type 0
IsBounded d = (length d.buffer ≤ max_frame_bytes) × (d.discarding ≡ true → d.buffer ≡ [])

module _ {ℓ} {A : Type ℓ} (read : List ℕ → Option A) where
  receive-IsBounded : (o : Option A) (d : FrameDecoder) → IsBounded (receive read o d).1
  unfolding receive
  receive-IsBounded none d = (ground arith, λ _. refl)
  receive-IsBounded (some m) d = (ground arith, λ _. refl)

  feed_byte-IsBounded : (b : ℕ) (d : FrameDecoder) → IsBounded d → IsBounded (feed_byte read b d).1
  unfolding feed_byte skip collect
  feed_byte-IsBounded b d h =
      let r = receive-IsBounded (line_of read d.buffer) d in
      (ground (arith, length-append d.buffer (b ∷ [])), ground arith)

  -- A decoder that keeps at most 8192 bytes of a line, and none while it skips one, still does so
  -- after any bytes.
  pub feed-IsBounded : (bs : List ℕ) (d : FrameDecoder) → IsBounded d → IsBounded (feed read bs d).1
  unfolding feed
  feed-IsBounded [] d h = h
  feed-IsBounded (b ∷ bs) d h = feed-IsBounded bs (feed_byte read b d).1 (feed_byte-IsBounded b d h)

  -- Reading a stream in two parts, cut anywhere, is reading it at once.
  feed-append :
      (xs ys : List ℕ) (d : FrameDecoder)
      → feed read (xs ++ ys) d ≡ (
        (feed read xs d).0 ++ (feed read ys (feed read xs d).1).0,
        (feed read ys (feed read xs d).1).1,
      )
  unfolding feed
  feed-append [] ys d = refl
  feed-append (x ∷ xs) ys d = rw (feed-append xs ys (feed_byte read x d).1) (
      ap (λ l. (l, (feed read ys (feed read xs (feed_byte read x d).1).1).1))
        (sym (append_assoc (feed_byte read x d).0 _ _)))

  feed_byte-collect :
      (b : ℕ) (start : List ℕ) (e : ℕ)
      → is_lf b ≡ false
      → length start < max_frame_bytes
      → feed_byte read b (reading start e) ≡ ([], reading (start ++ (b ∷ [])) e)
  unfolding feed_byte collect
  feed_byte-collect b start e n h = ground arith

  line_feed-reading :
      (d : FrameDecoder) → IsBounded d → (e : ℕ) × ((feed_byte read 10 d).1 ≡ reading [] e)
  unfolding feed_byte receive skip
  line_feed-reading d h = elim (Bool-cases d.discarding) [
    | inl skips ↦ (d.error_count, rw skips (ap (λ l. reading l d.error_count) (h.1 skips)))
    | inr reads ↦ rw reads (elim (Option-cases (line_of read d.buffer)) [
      | inl refused ↦ rw refused (d.error_count + 1, refl)
      | inr (m, message) ↦ rw message (d.error_count, refl)
    ])
  ]

  -- After a line feed the decoder is between two lines, whatever it has read before.
  pub feed-line_feed :
      (noise : List ℕ) → (e : ℕ) × ((feed read (noise ++ (10 ∷ [])) new_decoder).1 ≡ reading [] e)
  unfolding feed
  feed-line_feed noise =
      let (e, synced) =
        line_feed-reading (feed read noise new_decoder).1
          (feed-IsBounded noise new_decoder (omega arith, λ _. refl)) in
      (e, rw (feed-append noise (10 ∷ []) new_decoder) synced)

  receive-reading :
      (o : Option A) (start other : List ℕ) (e : ℕ)
      → receive read o (reading start e) ≡ receive read o (reading other e)
  unfolding receive
  receive-reading none start other e = refl
  receive-reading (some m) start other e = refl

  feed-line :
      (line start : List ℕ) (e : ℕ)
      → any is_lf line ≡ false
      → length start + length line ≤ max_frame_bytes
      → feed read (line ++ (10 ∷ [])) (reading start e)
        ≡ receive read (line_of read (start ++ line)) (reading start e)
  unfolding feed feed_byte receive collect
  feed-line [] start e n h = rw (append_nil start) (elim (Option-cases (line_of read start)) [
    | inl refused ↦ rw refused refl
    | inr (m, reads) ↦ rw reads refl
  ])
  feed-line (b ∷ line) start e n h =
      let collected = feed_byte-collect b start e (ground arith) (omega (arith, h)) in
      let rest =
        feed-line line (start ++ (b ∷ [])) e (ground arith)
          (omega (arith, h, length-append start (b ∷ []))) in
      rw collected (
        rw rest
          (rw (append_assoc start (b ∷ []) line) (receive-reading _ (start ++ (b ∷ [])) start e)))

  module _ (canonical : A → List ℕ) (valid : A → Bool)
      (canonical_no_lf : (m : A) → any is_lf (canonical m) ≡ false)
      (canonical_no_cr : (m : A) → any is_cr (canonical m) ≡ false)
      (read-canonical : (m : A)
        → valid m ≡ true
        → length (canonical m) ≤ max_frame_bytes
        → read (canonical m) ≡ some m) where
    feed-encode_message :
        (m : A) (e : ℕ) {frame : List ℕ}
        → encode_message canonical valid m ≡ some frame
        → feed read frame (reading [] e) ≡ (m ∷ [], reading [] e)
    unfolding encode_message line_of receive
    feed-encode_message m e {frame} h =
        let is_valid : valid m ≡ true = ground arith in
        let fits : length (canonical m) ≤ max_frame_bytes = ground arith in
        let is_frame : frame ≡ canonical m ++ (10 ∷ []) = ground arith in
        rw is_frame (
          rw (feed-line (canonical m) [] e (canonical_no_lf m) (omega (arith, fits)))
            (rw (canonical_no_cr m) (rw (read-canonical m is_valid fits) refl)))

    feed-encode_messages :
        (ms : List A) (e : ℕ) {bytes : List ℕ}
        → encode_messages canonical valid ms ≡ some bytes
        → feed read bytes (reading [] e) ≡ (ms, reading [] e)
    unfolding encode_messages send feed
    feed-encode_messages [] e {bytes} h = let nothing : bytes ≡ [] = ground arith in rw nothing refl
    feed-encode_messages (m ∷ ms) e {bytes} h =
        elim (Option-cases (encode_message canonical valid m)) [
          | inl refused ↦ absurd (ground arith)
          | inr (frame, first) ↦ elim (Option-cases (encode_messages canonical valid ms)) [
            | inl refused ↦ absurd (ground arith)
            | inr (rest, others) ↦
                let parts : bytes ≡ frame ++ rest = ground arith in
                rw parts (
                  rw (feed-append frame rest (reading [] e)) (
                    rw (feed-encode_message m e first)
                      (rw (feed-encode_messages ms e others) refl)))
          ]
        ]

    -- For a canonical form that has no LF and no CR and reads back as its message, if that is valid
    -- and fits a frame: whatever a decoder has read, after the next line feed it decodes the frames
    -- of `encode_message` to the messages that were encoded, all of them and in order.
    pub decode-encode :
        (noise : List ℕ) (ms : List A) {bytes : List ℕ}
        → encode_messages canonical valid ms ≡ some bytes
        → feed read ((noise ++ (10 ∷ [])) ++ bytes) new_decoder ≡ (
          (feed read (noise ++ (10 ∷ [])) new_decoder).0 ++ ms,
          (feed read (noise ++ (10 ∷ [])) new_decoder).1,
        )
    decode-encode noise ms {bytes} h = rw (feed-append (noise ++ (10 ∷ [])) bytes new_decoder) (
        let (e, synced) = feed-line_feed noise in rw synced (rw (feed-encode_messages ms e h) refl))
