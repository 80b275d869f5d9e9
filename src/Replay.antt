-- ===== src/Replay.antt =====
-- replay-engine/src: the recomputation of a round's outcome from its transcript.
pub mod Transcript
pub mod Engine
pub mod Diagnostics
pub mod Canonical
pub mod Refinement
