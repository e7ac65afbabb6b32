-- ===== src/Audio/Latency.antt =====
-- app/src/stream/audio/AudioLatencyPolicy.hpp, and `AudioPipeline::configure`. An `int` is a ℤ where
-- the caller may pass any, and a number once it is clamped.
mod Tests
use booster_nx.Common.{ℕ, ◌*◌, ◌/◌, ◌+◌, ◌≤◌, ◌≡◌, min, max, arith, if◌then◌else◌}
use booster_nx.Common.Int.{ℤ, pos, pos_part, ltb_ℤ, ◌≤ℤ◌}

-- `std::clamp` and `std::max`, `std::min` in their order here, at non-negative limits.
abbrev pub clamp : ℕ → ℕ → ℤ → ℕ
clamp lo hi x = if ltb_ℤ x (pos lo) then lo else if ltb_ℤ (pos hi) x then hi else pos_part x

pub clamp_target_buffer_ms : ℤ → ℕ
clamp_target_buffer_ms target_buffer_ms = clamp 30 100 target_buffer_ms

pub prime_packet_count : ℤ → ℕ
unfolding clamp_target_buffer_ms
prime_packet_count target_buffer_ms = clamp_target_buffer_ms target_buffer_ms / 10

pub initial_jitter_hold_us : ℤ → ℕ
unfolding clamp_target_buffer_ms
initial_jitter_hold_us target_buffer_ms = clamp_target_buffer_ms target_buffer_ms * 1000

pub resync_jitter_hold_us : ℤ → ℕ
unfolding clamp_target_buffer_ms
resync_jitter_hold_us target_buffer_ms = max 30 (clamp_target_buffer_ms target_buffer_ms / 2) * 1000

-- The fields that `configure` sets.
pub record Settings : Type 0 where
  pub volume_percent : ℕ
  pub prime_packets : ℕ
  pub output_start_buffers : ℕ
  pub output_queue_limit : ℕ
  pub initial_hold_us : ℕ
  pub resync_hold_us : ℕ

pub configure : ℤ → ℤ → Settings
unfolding prime_packet_count initial_jitter_hold_us resync_jitter_hold_us
configure volume_percent target_buffer_ms = record {
  volume_percent = clamp 800 1600 volume_percent;
  prime_packets = prime_packet_count target_buffer_ms;
  output_start_buffers = prime_packet_count target_buffer_ms;
  output_queue_limit =
      max (prime_packet_count target_buffer_ms) (min 12 (prime_packet_count target_buffer_ms + 2));
  initial_hold_us = initial_jitter_hold_us target_buffer_ms;
  resync_hold_us = resync_jitter_hold_us target_buffer_ms;
}

-- Whatever `configure` is called with, 3 to 10 packets prime the buffer, as many buffers start the
-- output, its queue takes two more, 12 at most, the volume is within 800 to 1600 percent, and the
-- holds are within 30 to 100 and 30 to 50 ms.
pub configure_bounds :
    (volume target : ℤ)
    → let c = configure volume target in
      (3 ≤ c.prime_packets)
      × (c.prime_packets ≤ 10)
      × (c.output_start_buffers ≡ c.prime_packets)
      × (c.output_queue_limit ≡ c.prime_packets + 2)
      × (c.output_queue_limit ≤ 12)
      × (800 ≤ c.volume_percent)
      × (c.volume_percent ≤ 1600)
      × (30000 ≤ c.initial_hold_us)
      × (c.initial_hold_us ≤ 100000)
      × (30000 ≤ c.resync_hold_us)
      × (c.resync_hold_us ≤ 50000)
unfolding configure
configure_bounds volume target = ground arith

-- A longer target buffer never primes with fewer packets, holds shorter or queues less.
pub configure_mono :
    (volume s t : ℤ)
    → s ≤ℤ t
    → let c = configure volume s in
      let d = configure volume t in
      (c.prime_packets ≤ d.prime_packets)
      × (c.output_queue_limit ≤ d.output_queue_limit)
      × (c.initial_hold_us ≤ d.initial_hold_us)
      × (c.resync_hold_us ≤ d.resync_hold_us)
unfolding configure
configure_mono volume s t h = ground arith
