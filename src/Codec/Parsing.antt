-- ===== src/Codec/Parsing.antt =====
-- Streams that `FrameParser` of backend/app/hostcomm/protocol.py reads in parts.
use smd_web_hmi.Prelude.{
  ℕ, ◌+◌, ◌*◌, ◌≤◌, ◌<◌, ◌≡◌, refl, sym, ap, ◌∙◌, false, none, some, some_injective, List, [], ◌∷◌,
  ◌++◌, append_assoc, ltb, length, arith, split_lines, split_lines-append, join_lines, if-true,
  if-false,
}
use mathlib.Core.Path.{subst₂}
use smd_web_hmi.Codec.Parser.{
  FrameParser, Loaded, object, strip, is_blank, take_loaded, bound_buffer, read_line, read_lines,
  read_stream, feed, Fed, prepend, after_line, unsplit, bounded,
}

bound_buffer-keeps : (p : FrameParser) → length p.buffer ≤ p.max * 2 → bound_buffer p ≡ p
unfolding bound_buffer
bound_buffer-keeps p h = if-false {b = ltb (p.max * 2) (length p.buffer)} _ _ (ground arith)

-- The parser after an overflow.
abbrev cleared : FrameParser → FrameParser
cleared p = record p { buffer = []; frames_dropped = p.frames_dropped + 1 }

bound_buffer-clears : (p : FrameParser) → p.max * 2 < length p.buffer → bound_buffer p ≡ cleared p
unfolding bound_buffer
bound_buffer-clears p h = if-true {b = ltb (p.max * 2) (length p.buffer)} _ _ (ground arith)

prepend-prepend : (xs ys : List ℕ) (x : Fed) → prepend xs (prepend ys x) ≡ prepend (xs ++ ys) x
unfolding prepend
prepend-prepend xs ys (none, p) = refl
prepend-prepend xs ys (some zs, p) = λ i. (some (sym (append_assoc xs ys zs) i), p)

prepend-nil : (x : Fed) → prepend [] x ≡ x
unfolding prepend
prepend-nil (none, p) = refl
prepend-nil (some zs, p) = refl

bounded-prepend : (xs : List ℕ) (x : Fed) → bounded (prepend xs x) ≡ prepend xs (bounded x)
unfolding bounded prepend
bounded-prepend xs (none, p) = refl
bounded-prepend xs (some zs, p) = refl

abbrev with_buffer : List ℕ → Fed → Fed
with_buffer rest x = (x.0, record x.1 { buffer = rest })

after_line-buffer :
    (x : Fed) (b left : List ℕ) (more : Fed)
    → after_line (with_buffer b x) left more ≡ after_line x left more
unfolding after_line
after_line-buffer (none, p) b left more = refl
after_line-buffer (some xs, p) b left more = refl

-- Both parts of a round that does not raise.
record IsPrepended (x : Fed) (left : List ℕ) (more : Fed) (frames : List ℕ) : Type 0 where
  first : List ℕ
  others : List ℕ
  is_first : x.0 ≡ some first
  is_others : more.0 ≡ some others
  is_all : first ++ others ≡ frames
  left_ : after_line x left more ≡ (some frames, more.1)

after_line-IsPrepended :
    (x : Fed) (left : List ℕ) (more : Fed) {frames : List ℕ}
    → (after_line x left more).0 ≡ some frames
    → IsPrepended x left more frames
unfolding after_line prepend
after_line-IsPrepended (none, p) left more h = cc
after_line-IsPrepended (some xs, p) left (none, q) h = cc
after_line-IsPrepended (some xs, p) left (some ys, q) h = record {
  first = xs;
  others = ys;
  is_first = refl;
  is_others = refl;
  is_all = some_injective h;
  left_ = λ i. (h i, q);
}

after_line-first :
    (x : Fed) (left : List ℕ) (more : Fed) {frames : List ℕ}
    → x.0 ≡ some frames
    → after_line x left more ≡ prepend frames more
unfolding after_line
after_line-first (none, p) left more h = cc
after_line-first (some xs, p) left more h = ap (λ f. prepend f more) (some_injective h)

module _ (loads : List ℕ → Loaded) where
  read_line-max : (line : List ℕ) (p : FrameParser) → (read_line loads line p).1.max ≡ p.max
  unfolding read_line take_loaded
  read_line-max line p = ground arith

  read_line-buffer :
      (line rest : List ℕ) (p : FrameParser)
      → read_line loads line (record p { buffer = rest })
        ≡ with_buffer rest (read_line loads line p)
  unfolding read_line take_loaded
  read_line-buffer line rest p = ground arith

  -- The loop does not read the buffer that it finds.
  read_lines-buffer :
      (lines : List (List ℕ)) (rest b : List ℕ) (p : FrameParser)
      → read_lines loads lines rest (record p { buffer = b }) ≡ read_lines loads lines rest p
  unfolding read_lines
  read_lines-buffer [] rest b p = refl
  read_lines-buffer (line ∷ lines) rest b p =
      let first = read_line loads line p in
      ap (λ x. after_line x (unsplit lines rest) (read_lines loads lines rest x.1))
        (read_line-buffer line b p)
      ∙ (ap (after_line (with_buffer b first) (unsplit lines rest))
            (read_lines-buffer lines rest b first.1)
          ∙ after_line-buffer first b (unsplit lines rest) (read_lines loads lines rest first.1))

  -- A loop that does not raise keeps the limit, and leaves the rest in the buffer.
  read_lines-rest :
      (lines : List (List ℕ)) (rest : List ℕ) (p : FrameParser) {frames : List ℕ}
      → (read_lines loads lines rest p).0 ≡ some frames
      → ((read_lines loads lines rest p).1.buffer ≡ rest)
        × ((read_lines loads lines rest p).1.max ≡ p.max)
  unfolding read_lines
  read_lines-rest [] rest p h = (refl, refl)
  read_lines-rest (line ∷ lines) rest p h =
      let first = read_line loads line p in
      let more = read_lines loads lines rest first.1 in
      let parts = after_line-IsPrepended first (unsplit lines rest) more h in
      let (is_rest, is_max) = read_lines-rest lines rest first.1 parts.is_others in
      (
        ap (λ (x : Fed). x.1.buffer) parts.left_ ∙ is_rest,
        ap (λ (x : Fed). x.1.max) parts.left_ ∙ (is_max ∙ read_line-max line p),
      )

  read_lines-append :
      (xs ys : List (List ℕ)) (rest later : List ℕ) (p : FrameParser) {frames : List ℕ}
      → (read_lines loads xs rest p).0 ≡ some frames
      → read_lines loads (xs ++ ys) later p
        ≡ prepend frames (read_lines loads ys later (read_lines loads xs rest p).1)
  unfolding read_lines
  read_lines-append [] ys rest later p h = sym (
      ap (λ f. prepend f (read_lines loads ys later (record p { buffer = rest })))
        (sym (some_injective h))
      ∙ (prepend-nil _ ∙ read_lines-buffer ys later rest p))
  read_lines-append (x ∷ xs) ys rest later p {frames} h =
      let first = read_line loads x p in
      let more = read_lines loads xs rest first.1 in
      let parts = after_line-IsPrepended first (unsplit xs rest) more h in
      after_line-first first (unsplit (xs ++ ys) later) (read_lines loads (xs ++ ys) later first.1)
        parts.is_first
      ∙ (ap (prepend parts.first)
            (read_lines-append xs ys rest later first.1 {frames = parts.others} parts.is_others)
          ∙ (prepend-prepend parts.first parts.others _
              ∙ (ap (λ f. prepend f (read_lines loads ys later more.1)) parts.is_all
                  ∙ ap (λ (z : Fed). prepend frames (read_lines loads ys later z.1))
                      (sym parts.left_))))

  bounded-some : (x : Fed) {frames : List ℕ} → (bounded x).0 ≡ some frames → x.0 ≡ some frames
  unfolding bounded
  bounded-some (none, p) h = cc
  bounded-some (some xs, p) h = h

  bounded-keeps : (x : Fed) → length x.1.buffer ≤ x.1.max * 2 → bounded x ≡ x
  unfolding bounded
  bounded-keeps (none, p) h = refl
  bounded-keeps (some xs, p) h = λ i. (some xs, bound_buffer-keeps p h i)

  -- The stream behind lines that have been read.
  read_stream-join_lines :
      (x : List (List ℕ) × List ℕ) (ys : List ℕ) (p : FrameParser) {frames : List ℕ}
      → length x.1 ≤ p.max * 2
      → (read_stream loads x p).0 ≡ some frames
      → read_stream loads (join_lines x ys) p
        ≡ prepend frames (feed loads ys (read_stream loads x p).1)
  unfolding read_stream feed
  read_stream-join_lines (lines, rest) ys p {frames} h returns =
      let first = read_lines loads lines rest p in
      let is_some = bounded-some first returns in
      let (is_rest, is_max) = read_lines-rest lines rest p is_some in
      let kept_ : bounded first ≡ first =
        bounded-keeps first
          (subst₂ (λ (b : List ℕ) (m : ℕ). length b ≤ m * 2) (sym is_rest) (sym is_max) h) in
      let more = split_lines (rest ++ ys) in
      ap bounded (read_lines-append lines more.0 rest more.1 p is_some)
      ∙ (bounded-prepend frames _
          ∙ (ap (λ b. prepend frames (read_stream loads (split_lines (b ++ ys)) first.1))
                (sym is_rest)
              ∙ ap (λ (z : Fed). prepend frames (feed loads ys z.1)) (sym kept_)))

  -- Reading a stream in two parts, cut anywhere, is reading it at once, if the first part does not raise and
  -- leaves at most twice the frame length without a line feed. If the second part raises, so does
  -- reading at once, and then the frames of the first part are lost; the parser is the same.
  pub feed-append_parts :
      (xs ys : List ℕ) (p : FrameParser) {frames : List ℕ}
      → length (split_lines (p.buffer ++ xs)).1 ≤ p.max * 2
      → (feed loads xs p).0 ≡ some frames
      → feed loads (xs ++ ys) p ≡ prepend frames (feed loads ys (feed loads xs p).1)
  unfolding feed
  feed-append_parts xs ys p h returns =
      ap (λ d. read_stream loads (split_lines d) p) (sym (append_assoc p.buffer xs ys))
      ∙ (ap (λ x. read_stream loads x p) (split_lines-append (p.buffer ++ xs) ys)
          ∙ read_stream-join_lines (split_lines (p.buffer ++ xs)) ys p h returns)

  read_line-object :
      (line : List ℕ) (p : FrameParser) {m : ℕ}
      → length line ≤ p.max
      → is_blank (strip line) ≡ false
      → loads (strip line) ≡ object m
      → read_line loads line p ≡ (some (m ∷ []), record p { frames_parsed = p.frames_parsed + 1 })
  unfolding read_line
  read_line-object line p {m} fits full loaded =
      if-false {b = ltb p.max (length line)} _ _ (ground arith)
      ∙ (if-false {b = is_blank (strip line)} _ _ full
          ∙ (ap (λ l. take_loaded l p) loaded ∙ (unfold take_loaded in refl)))

  -- A stream without a line feed that is longer than twice the frame length is dropped, but the rest of its
  -- line is not: if that is within the frame length and decodes to an object, it is read as a frame.
  pub feed_overflow :
      (xs tail : List ℕ) (p : FrameParser) {m : ℕ}
      → split_lines (p.buffer ++ xs) ≡ ([], p.buffer ++ xs)
      → p.max * 2 < length (p.buffer ++ xs)
      → split_lines (tail ++ 10 ∷ []) ≡ (tail ∷ [], [])
      → length tail ≤ p.max
      → is_blank (strip tail) ≡ false
      → loads (strip tail) ≡ object m
      → ((feed loads xs p).0 ≡ some [])
        × ((feed loads (tail ++ 10 ∷ []) (feed loads xs p).1).0 ≡ some (m ∷ []))
  unfolding feed read_stream read_lines bounded
  feed_overflow xs tail p {m} no_line long line fits full loaded =
      let fed : feed loads xs p ≡ (some [], cleared p) =
        ap (λ x. read_stream loads x p) no_line
        ∙ (λ i. (some [], bound_buffer-clears (record p { buffer = p.buffer ++ xs }) long i)) in
      (
        ap (λ z. z.0) fed,
        ap (λ z. (feed loads (tail ++ 10 ∷ []) z.1).0) fed
            ∙ (ap (λ x. (read_stream loads x (cleared p)).0) line
                ∙ (ap
                      (λ (z : Fed).
                        (bounded (after_line z (unsplit [] []) (read_lines loads [] [] z.1))).0)
                      (read_line-object tail (cleared p) fits full loaded)
                    ∙ (unfold after_line prepend in refl))),
      )
