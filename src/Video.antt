-- ===== src/Video.antt =====
-- The video side of app/src/stream: when a decoded frame is shown, and the queue of decoded frames.
pub mod Timing
pub mod Queue
