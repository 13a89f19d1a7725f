-- ===== src/Codec/ParserExamples.antt =====
-- The theorems on the HostComm 1.0 parser at frames of two bytes.
use smd_web_hmi.Prelude.{
  ℕ, ◌≡◌, refl, some, List, [], ◌∷◌, ◌++◌, ◌==◌, if◌then◌else◌, arith, split_lines, put_byte,
}
use smd_web_hmi.Codec.Parser.{
  FrameParser, Loaded, bad_json, object, new_parser, feed, prepend, read_stream, read_lines,
  bounded, bound_buffer, strip, is_blank,
}
use smd_web_hmi.Codec.Parsing.{feed-append_parts, feed_overflow}

abbrev loads : List ℕ → Loaded
loads [] = bad_json
loads (b ∷ bs) = if b == 123 then object 7 else bad_json

abbrev parser : FrameParser
parser = new_parser 2

-- The frame is cut behind its first byte.
abbrev first : List ℕ
first = 123 ∷ []

abbrev second : List ℕ
second = 125 ∷ 10 ∷ []

feed-append_parts_example :
    feed loads (first ++ second) parser ≡ prepend [] (feed loads second (feed loads first parser).1)
unfolding split_lines new_parser put_byte feed read_stream read_lines bounded bound_buffer
feed-append_parts_example = feed-append_parts loads first second parser (omega arith) refl

abbrev flood : List ℕ
flood = 65 ∷ 65 ∷ 65 ∷ 65 ∷ 65 ∷ []

abbrev rest : List ℕ
rest = 123 ∷ 125 ∷ []

feed_overflow_example :
    ((feed loads flood parser).0 ≡ some [])
    × ((feed loads (rest ++ 10 ∷ []) (feed loads flood parser).1).0 ≡ some (7 ∷ []))
unfolding split_lines put_byte new_parser strip is_blank
feed_overflow_example =
    feed_overflow loads flood rest parser refl (omega arith) refl (omega arith) refl refl
