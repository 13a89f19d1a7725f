-- ===== src/Codec.antt =====
-- The byte streams of the two protocols: HostComm 2.0 frames and recipe transfers
-- (backend/app/hostcomm/v2_contract/codec.py), and HostComm 1.0 lines (hostcomm/protocol.py).
pub mod Frames
pub mod Decoding
pub mod Assembler
pub mod Parser
pub mod Parsing
pub mod Examples
pub mod ParserExamples
