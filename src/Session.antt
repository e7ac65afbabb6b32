-- ===== src/Session.antt =====
-- app/src/webrtc: the session between libpeer, the decoder and the renderer.
pub mod H264
pub mod Decode
pub mod Keyframe
pub mod Sync
pub mod Input
pub mod Ice
pub mod Control
