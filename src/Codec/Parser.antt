-- ===== src/Codec/Parser.antt =====
-- `FrameParser` of backend/app/hostcomm/protocol.py, the frames of HostComm 1.0. What `json.loads` makes of a
-- line is a parameter.
use smd_web_hmi.Prelude.{
  ℕ, ◌+◌, ◌*◌, Bool, true, false, ◌&&◌, ◌||◌, Option, none, some, List, [], ◌∷◌, ◌++◌, ltb, leb,
  ◌==◌, length, split_lines, if◌then◌else◌,
}

pub record FrameParser : Type 0 where
  pub buffer : List ℕ
  pub max : ℕ
  pub frames_parsed : ℕ
  pub frames_dropped : ℕ
  pub json_errors : ℕ

-- What a line decodes to: an error that is caught, one that is not (`json.loads` raises a `RecursionError` on deep
-- nesting and a plain `ValueError` on an integer of too many digits), a value that is no object, or an object.
pub data Loaded : Type 0 where
  bad_json raises not_object : Loaded
  object : ℕ → Loaded

-- `__init__`
unfoldable pub new_parser : ℕ → FrameParser
new_parser max = record {
  buffer = [];
  max = max;
  frames_parsed = 0;
  frames_dropped = 0;
  json_errors = 0;
}

unfoldable pub is_space : ℕ → Bool
is_space b = (b == 32) || (leb 9 b && leb b 13)

unfoldable pub lstrip : List ℕ → List ℕ
unfolding is_space
lstrip [] = []
lstrip (b ∷ bs) = let rest = lstrip bs in if is_space b then rest else b ∷ bs

unfoldable pub is_blank : List ℕ → Bool
is_blank [] = true
is_blank (b ∷ bs) = false

unfoldable pub rstrip : List ℕ → List ℕ
unfolding is_space is_blank
rstrip [] = []
rstrip (b ∷ bs) = let rest = rstrip bs in if is_space b && is_blank rest then [] else b ∷ rest

-- `bytes.strip`
unfoldable pub strip : List ℕ → List ℕ
unfolding lstrip rstrip
strip line = rstrip (lstrip line)

-- What a call returns, or `none` if it raises, with the parser that it leaves.
abbrev pub Fed : Type 0
Fed = Option (List ℕ) × FrameParser

-- The parser after a line that decodes to a value, with the frame.
unfoldable pub take_loaded : Loaded → FrameParser → Fed
take_loaded bad_json p = (some [], record p { json_errors = p.json_errors + 1 })
take_loaded raises p = (none, p)
take_loaded not_object p = (some [], record p { json_errors = p.json_errors + 1 })
take_loaded (object m) p = (some (m ∷ []), record p { frames_parsed = p.frames_parsed + 1 })

-- The bytes of lines and of what follows them.
unfoldable pub unsplit : List (List ℕ) → List ℕ → List ℕ
unsplit [] rest = rest
unsplit (line ∷ lines) rest = line ++ 10 ∷ unsplit lines rest

-- Frames before those of the rest of a call; an exception loses them.
unfoldable pub prepend : List ℕ → Fed → Fed
prepend frames (none, p) = (none, p)
prepend frames (some more, p) = (some (frames ++ more), p)

-- A round of the loop, then the others; an exception leaves the bytes behind its line in the buffer.
unfoldable pub after_line : Fed → List ℕ → Fed → Fed
unfolding prepend
after_line (none, p) left more = (none, record p { buffer = left })
after_line (some frames, p) left more = prepend frames more

-- A buffer without a line feed that has grown too long is cleared.
unfoldable pub bound_buffer : FrameParser → FrameParser
bound_buffer p =
    if ltb (p.max * 2) (length p.buffer)
    then record p { buffer = []; frames_dropped = p.frames_dropped + 1 }
    else p

unfoldable pub bounded : Fed → Fed
unfolding bound_buffer
bounded (none, p) = (none, p)
bounded (some frames, p) = (some frames, bound_buffer p)

module _ (loads : List ℕ → Loaded) where
  -- A round of the loop over the lines.
  unfoldable pub read_line : List ℕ → FrameParser → Fed
  unfolding strip is_blank take_loaded
  read_line line p =
      if ltb p.max (length line)
      then (some [], record p { frames_dropped = p.frames_dropped + 1 })
      else (if is_blank (strip line) then (some [], p) else take_loaded (loads (strip line)) p)

  -- The lines of a stream, and what is left of it.
  unfoldable pub read_lines : List (List ℕ) → List ℕ → FrameParser → Fed
  unfolding read_line after_line unsplit
  read_lines [] rest p = (some [], record p { buffer = rest })
  read_lines (line ∷ lines) rest p =
      let first = read_line line p in
      let more = read_lines lines rest first.1 in after_line first (unsplit lines rest) more

  unfoldable pub read_stream : List (List ℕ) × List ℕ → FrameParser → Fed
  unfolding read_lines bounded
  read_stream (lines, rest) p = bounded (read_lines lines rest p)

  -- `feed`
  unfoldable pub feed : List ℕ → FrameParser → Fed
  unfolding read_stream
  feed data_ p = read_stream (split_lines (p.buffer ++ data_)) p
