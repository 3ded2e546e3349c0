-- ===== src/Live.antt =====
-- prototype/live_queue.py: the Runtime between finalized Utterances and the Event log.
pub mod Queue
pub mod Candidate
pub mod Runtime
pub mod Turns
