-- ===== src/Codex.antt =====
-- provider/codex: the stream of a response.
pub mod Usage
pub mod Event
pub mod Stream
pub mod Answers
pub mod Blocks
pub mod Frames
pub mod Streamed
pub mod Deltas
pub mod Reply
