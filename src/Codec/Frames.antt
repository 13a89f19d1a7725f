-- ===== src/Codec/Frames.antt =====
-- `FrameDecoder` of backend/app/hostcomm/v2_contract/codec.py. A byte is a number. What a line reads
-- as, `validate_message (strict_loads line)`, is the parameter `read`: `none` is an exception.
use smd_web_hmi.Prelude.{
  ℕ, ◌+◌, Bool, true, false, not, Option, none, some, List, [], ◌∷◌, ◌++◌, length, any, ltb, ◌==◌,
  if◌then◌else◌,
}

-- `MAX_FRAME_BYTES`, and the bytes `"\n"` and `"\r"`.
abbrev pub max_frame_bytes : ℕ
max_frame_bytes = 8192

abbrev pub is_lf : ℕ → Bool
is_lf b = b == 10

abbrev pub is_cr : ℕ → Bool
is_cr b = b == 13

pub record FrameDecoder : Type 0 where
  pub buffer : List ℕ
  pub discarding : Bool
  pub error_count : ℕ

abbrev pub new_decoder : FrameDecoder
new_decoder = record { buffer = []; discarding = false; error_count = 0 }

module _ {ℓ} {A : Type ℓ} (read : List ℕ → Option A) where
  -- One line: its message if it has no CR and reads as one.
  unfoldable pub line_of : List ℕ → Option A
  line_of line = if any is_cr line then none else read line

  unfoldable pub receive : Option A → FrameDecoder → List A × FrameDecoder
  receive none d = ([], record d { buffer = []; error_count = d.error_count + 1 })
  receive (some m) d = (m ∷ [], record d { buffer = [] })

  unfoldable pub skip : ℕ → FrameDecoder → FrameDecoder
  skip b d = record d { discarding = not (is_lf b) }

  unfoldable pub collect : ℕ → FrameDecoder → FrameDecoder
  collect b d =
      if length d.buffer == max_frame_bytes
      then record d { buffer = []; discarding = true; error_count = d.error_count + 1 }
      else record d { buffer = d.buffer ++ (b ∷ []) }

  -- One turn of the loop over the bytes.
  unfoldable pub feed_byte : ℕ → FrameDecoder → List A × FrameDecoder
  feed_byte b d =
      if d.discarding
      then ([], skip b d)
      else (if is_lf b then receive (line_of d.buffer) d else ([], collect b d))

  unfoldable pub feed : List ℕ → FrameDecoder → List A × FrameDecoder
  feed [] d = ([], d)
  feed (b ∷ bs) d =
      let (ms, next) = feed_byte b d in let (ns, last) = feed bs next in (ms ++ ns, last)

module _ {ℓ} {A : Type ℓ} (canonical : A → List ℕ) (valid : A → Bool) where
  -- `encode_message`, with `canonical_bytes` and the test that `validate_message` does not raise.
  unfoldable pub encode_message : A → Option (List ℕ)
  encode_message m =
      if not (valid m)
      then none
      else (let raw = canonical m in
          if ltb max_frame_bytes (length raw) then none else some (raw ++ (10 ∷ [])))

  -- The bytes of messages sent one after the other.
  unfoldable pub send : Option (List ℕ) → Option (List ℕ) → Option (List ℕ)
  send (some frame) (some rest) = some (frame ++ rest)
  send _ _ = none

  unfoldable pub encode_messages : List A → Option (List ℕ)
  encode_messages [] = some []
  encode_messages (m ∷ ms) = send (encode_message m) (encode_messages ms)
