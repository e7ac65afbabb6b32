-- ===== src/App.antt =====
-- The rules of the application around the stream: settings, limits, history and files.
pub mod Replace
pub mod History
pub mod Pulse
pub mod Ports
pub mod Histogram
pub mod Settings
pub mod StreamEnd
pub mod Journal
mod Tests
