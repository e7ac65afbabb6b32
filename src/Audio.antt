-- ===== src/Audio.antt =====
-- The audio side of app/src/stream: RTP payloads, the latency settings, and the pipeline with its
-- jitter buffer and media clock.
pub mod Rtp
pub mod Latency
pub mod Pipeline
